-- ===== src/Webdav/Http/Types.antt =====
-- Methods and versions of HTTP (netfiles/src/webdav/http_parser.hpp), and the names of the methods.
use net_files.Base.{
  Option, none, some, ◌≡◌, ◌↔◌, refl, sym, ap, subst, ◌∙◌, Bytes, codes, equal, equal_iff,
  if◌then◌else◌, Bool-cases, inl, inr,
}

pub data HttpMethod : Type 0 where
  get head put delete mkcol propfind proppatch copy move lock unlock options : HttpMethod

pub data HttpVersion : Type 0 where
  http10 http11 unknown : HttpVersion

unfoldable pub method_to_string : HttpMethod → Bytes
method_to_string get = codes "GET"
method_to_string head = codes "HEAD"
method_to_string put = codes "PUT"
method_to_string delete = codes "DELETE"
method_to_string mkcol = codes "MKCOL"
method_to_string propfind = codes "PROPFIND"
method_to_string proppatch = codes "PROPPATCH"
method_to_string copy = codes "COPY"
method_to_string move = codes "MOVE"
method_to_string lock = codes "LOCK"
method_to_string unlock = codes "UNLOCK"
method_to_string options = codes "OPTIONS"

unfoldable pub string_to_method : Bytes → Option HttpMethod
string_to_method str =
    if equal str (codes "GET")
    then some get
    else if equal str (codes "HEAD")
    then some head
    else if equal str (codes "PUT")
    then some put
    else if equal str (codes "DELETE")
    then some delete
    else if equal str (codes "MKCOL")
    then some mkcol
    else if equal str (codes "PROPFIND")
    then some propfind
    else if equal str (codes "PROPPATCH")
    then some proppatch
    else if equal str (codes "COPY")
    then some copy
    else if equal str (codes "MOVE")
    then some move
    else if equal str (codes "LOCK")
    then some lock
    else if equal str (codes "UNLOCK")
    then some unlock
    else if equal str (codes "OPTIONS")
    then some options
    else none

named : (m : HttpMethod) → string_to_method (method_to_string m) ≡ some m
unfolding string_to_method method_to_string codes equal
named get = refl
named head = refl
named put = refl
named delete = refl
named mkcol = refl
named propfind = refl
named proppatch = refl
named copy = refl
named move = refl
named lock = refl
named unlock = refl
named options = refl

abbrev Names : Bytes → Option HttpMethod → Type 0
Names s none = Unit
Names s (some m) = s ≡ method_to_string m

name_step :
    (s t : Bytes) (m : HttpMethod) (o : Option HttpMethod)
    → method_to_string m ≡ t
    → Names s o
    → Names s (if equal s t then some m else o)
name_step s t m o e h = elim (Bool-cases (equal s t)) [
  | inl y ↦ rw y ((equal_iff s t).0 y ∙ sym e)
  | inr n ↦ rw n h
]

string_to_method-Names : (s : Bytes) → Names s (string_to_method s)
unfolding string_to_method method_to_string
string_to_method-Names s = name_step s _ get _ refl (
    name_step s _ head _ refl (
      name_step s _ put _ refl (
        name_step s _ delete _ refl (
          name_step s _ mkcol _ refl (
            name_step s _ propfind _ refl (
              name_step s _ proppatch _ refl (
                name_step s _ copy _ refl (
                  name_step s _ move _ refl (
                    name_step s _ lock _ refl
                      (name_step s _ unlock _ refl (name_step s _ options _ refl tt)))))))))))

-- A text names a method exactly when it is the method's own name, in this case of letters.
pub string_to_method_iff :
    (s : Bytes) (m : HttpMethod) → (string_to_method s ≡ some m) ↔ (s ≡ method_to_string m)
unfolding string_to_method method_to_string
string_to_method_iff s m =
    (λ e. subst (Names s) e (string_to_method-Names s), λ e. ap string_to_method e ∙ named m)
