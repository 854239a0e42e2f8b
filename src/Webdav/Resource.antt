-- ===== src/Webdav/Resource.antt =====
-- The resources of netfiles/src/webdav/dav_resource.cpp, `DavFile` and `DavCollection`, and the factory.
mod Types
pub mod Streams
pub mod Locks
pub use Types.{DavLock, ResourceType, DavResource}
use net_files.Base.{
  ℕ, zero, suc, ◌+◌, ◌-◌, ◌*◌, ◌/◌, ◌%◌, ◌^◌, Bool, true, false, not, ◌&&◌, List, [], ◌∷◌, ◌++◌,
  Option, none, some, Bytes, codes, equal, is_empty, starts_with, take, drop, length, if◌then◌else◌,
  ltb, min, ◌==◌, Outcome, done, thrown, pending,
}
use net_files.Core.Fs.Copy.{Copied, write_whole, copy_file, copy}
use net_files.Core.Fs.Disk.{Node, file, Disk, components, join_path}
use net_files.Core.Fs.Ops.{
  Errc, message, Checked, good, bad, raise, rename, remove_file, remove_directory, create_directory,
  last_name,
}
use net_files.Core.Fs.Walk.{canonical, status, exists, is_directory}
use net_files.Webdav.Http.Date.{date_text}
use net_files.Webdav.Http.Filename.{encode_filename}
use net_files.Webdav.World.{DavHost, DavWorld, M, after, ◌>>=◌, pure, now}
use net_files.Webdav.Xml.{
  DavXmlBuilder, add_contentlength, add_lastmodified, add_creationdate, add_displayname,
  add_resourcetype,
}

abbrev pub buffer_size : ℕ
buffer_size = 64 * 1024

-- `path.filename()`.
unfoldable pub filename : Bytes → Bytes
filename s = last_name (components s)

-- The loop of `DavFile::get`: whole buffers, then what is left.
unfoldable pub read_stream : ℕ → Bytes → Bytes → Bytes
read_stream zero content output = output
read_stream (suc f) content output =
    let next = read_stream f (drop buffer_size content) (output ++ take buffer_size content) in
    if is_empty (take buffer_size content) then output else next

unfoldable pub get_content : Option Node → Outcome Bytes
unfolding read_stream
get_content (some (file content)) = done (read_stream (suc (length content)) content [])
get_content _ = thrown (codes "Cannot get file size")

unfoldable pub get : DavResource → Disk → Outcome Bytes
unfolding get_content
get r d = elim r.type [
  | ResourceType.file ↦ get_content (status d r.path)
  | ResourceType.collection ↦ done []
]

-- The loop of `DavFile::put`. The result says whether the loop ended, and what was written; an input
-- that is used up gives no byte any more, and the loop goes on.
unfoldable pub put_loop : ℕ → Bytes → ℕ → Bytes → Bool × Bytes
put_loop zero input remaining written = (false, written)
put_loop (suc f) input remaining written =
    let to_read = min buffer_size remaining in
    let next =
      put_loop f (drop to_read input) (remaining - length (take to_read input))
        (written ++ take to_read input) in
    if remaining == 0 then (true, written) else next

-- What comes of the file that was opened, or of the failure to open it.
unfoldable pub put_done : Bool → Disk → Checked Disk → Outcome (Unit {0}) × Disk
put_done ended d (bad e) = (thrown (codes "Cannot create file"), d)
put_done ended d (good d') = (if ended then done tt else pending, d')

-- The file when the loop came so far. The stream is opened, and the file cut off, before the loop.
unfoldable pub put_result : Bytes → Disk → Bool × Bytes → Outcome (Unit {0}) × Disk
unfolding put_done
put_result path d (ended, written) = put_done ended d (write_whole d path written)

unfoldable pub put_file : Bytes → Bytes → ℕ → Disk → Outcome (Unit {0}) × Disk
unfolding put_loop put_result
put_file path input size d = put_result path d (put_loop (suc size) input size [])

unfoldable pub put : DavResource → Bytes → ℕ → Disk → Outcome (Unit {0}) × Disk
unfolding put_file
put r input size d = elim r.type [
  | ResourceType.file ↦ put_file r.path input size d
  | ResourceType.collection ↦ (thrown (codes "Cannot PUT to a collection"), d)
]

-- A call of the file system that changes the tree.
unfoldable pub changed : {A : Type 0} → A → Disk → Outcome Disk → Outcome A × Disk
changed a d (done d') = (done a, d')
changed a d (thrown m) = (thrown m, d)
changed a d pending = (pending, d)

unfoldable pub remove : DavResource → Disk → Outcome Bool × Disk
unfolding changed
remove r d = elim r.type [
  | ResourceType.file ↦ changed true d (remove_file d r.path)
  | ResourceType.collection ↦ changed true d (remove_directory d r.path)
]

unfoldable pub copied : Copied → Outcome (Unit {0}) × Disk
copied (d, none) = (done tt, d)
copied (d, some e) = (thrown (codes "Copy failed: " ++ message e), d)

-- `DavFile::copy` and `DavCollection::copy`.
unfoldable pub copy_to : DavResource → Bytes → Disk → Outcome (Unit {0}) × Disk
unfolding changed copied
copy_to r dest d = elim r.type [
  | ResourceType.file ↦ changed tt d (raise (codes "Copy failed: ") (copy_file d r.path dest))
  | ResourceType.collection ↦ copied (copy d r.path dest)
]

-- `DavFile::move` and `DavCollection::move`.
unfoldable pub move_to : DavResource → Bytes → Disk → Outcome (Unit {0}) × Disk
unfolding changed
move_to r dest d = changed tt d (raise (codes "Move failed: ") (rename d r.path dest))

-- An error of `std::filesystem::file_size` is the largest number of 64 bits.
unfoldable pub size_or_error : Option Node → ℕ
size_or_error (some (file content)) = length content
size_or_error _ = 2 ^ 64 - 1

unfoldable pub get_size : DavResource → Disk → ℕ
unfolding size_or_error
get_size r d = elim r.type [
  | ResourceType.file ↦ size_or_error (status d r.path)
  | ResourceType.collection ↦ 0
]

unfoldable pub get_properties : DavHost → DavResource → Disk → DavXmlBuilder → DavXmlBuilder
unfolding get_size filename date_text
get_properties h r d builder = elim r.type [
  | ResourceType.file ↦ add_resourcetype false (
      add_displayname (encode_filename h.gb18030_to_utf8 (filename r.path)) (
        add_creationdate (date_text (h.modified r.path)) (
          add_lastmodified (date_text (h.modified r.path))
            (add_contentlength (get_size r d) builder))))
  | ResourceType.collection ↦ add_resourcetype true (
      add_displayname (encode_filename h.gb18030_to_utf8 (filename r.path))
        (add_creationdate (codes "Thu, 01 Jan 1970 00:00:00 GMT") builder))
]

-- `{:x}`: hexadecimal digits by repeated division; the fuel is the number itself.
unfoldable pub hex_digits : ℕ → ℕ → Bytes → Bytes
hex_digits zero n out = out
hex_digits (suc f) n out =
    let digit = if ltb (n % 16) 10 then 48 + n % 16 else 87 + n % 16 in
    let rest = hex_digits f (n / 16) (digit ∷ out) in if ltb n 16 then digit ∷ out else rest

-- 15 minutes in the ticks of 100 ns of the system clock.
abbrev pub lifetime : ℕ
lifetime = 15 * 60 * 10 ^ 7

-- `DavFile::lock` and `DavCollection::lock`: the new lock, and the resource that has it.
unfoldable pub lock : DavHost → Bytes → Bool → DavResource → M (DavLock × DavResource)
unfolding hex_digits
lock h owner exclusive r = do
  time ← now h
  later ← now h
  let new : DavLock = record {
    token = codes "urn:uuid:" ++ hex_digits (suc time) time [];
    owner = owner;
    expires = later + lifetime;
    exclusive = exclusive;
    path = encode_filename h.gb18030_to_utf8 r.path;
  }
  pure (new, record r { active_locks = r.active_locks ++ new ∷ [] })

-- The locks without the first that has the token; none when there is no such lock.
unfoldable pub without_token : Bytes → List DavLock → Option (List DavLock)
without_token token [] = none
without_token token (l ∷ ls) =
    let rest = without_token token ls in
    if equal l.token token then some ls else elim rest [ none ↦ none | some kept ↦ some (l ∷ kept) ]

-- `DavFile::unlock` and `DavCollection::unlock`.
unfoldable pub unlock : Bytes → DavResource → Bool × DavResource
unfolding without_token
unlock token r = elim (without_token token r.active_locks) [
  | none ↦ (false, r)
  | some kept ↦ (true, record r { active_locks = kept })
]

unfoldable pub get_locks : DavResource → List DavLock
get_locks r = r.active_locks

-- `DavCollection::create_child`.
unfoldable pub create_child : DavResource → Bytes → Bool → Disk → Outcome (Unit {0}) × Disk
unfolding changed
create_child r name is_collection d =
    if is_collection
    then changed tt d (create_directory d (join_path r.path name))
    else elim (write_whole d (join_path r.path name) []) [
      | good d' ↦ (done tt, d')
      | bad e ↦ (done tt, d)
    ]

-- `DavResourceFactory::create`: no resource for what does not exist.
unfoldable pub create : Disk → Bytes → Option DavResource
create d path =
    if not (exists d path)
    then none
    else some (record {
      type = if is_directory d path then ResourceType.collection else ResourceType.file;
      path = path;
      active_locks = [];
    })

-- `DavResourceFactory::validate_path`.
unfoldable pub validate_path : Disk → Bytes → Bytes → Bool
validate_path d root path = elim (canonical d path) [
  | none ↦ false
  | some target ↦ elim (canonical d root) [ none ↦ false | some base ↦ starts_with target base ]
]
