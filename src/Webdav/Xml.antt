-- ===== src/Webdav/Xml.antt =====
-- `DavXmlBuilder` of netfiles/src/webdav/dav_namespaces.hpp: the text that it has so far is its state.
pub mod Escape
use net_files.Base.{
  ℕ, Bool, true, false, [], ◌∷◌, ◌++◌, Bytes, codes, if◌then◌else◌, ◌==◌, to_string,
}

pub record DavXmlBuilder : Type 0 where
  pub xml : Bytes

unfoldable pub new_builder : DavXmlBuilder
new_builder = record { xml = [] }

-- `xml_ += text`.
abbrev pub append : Bytes → DavXmlBuilder → DavXmlBuilder
append text b = record { xml = b.xml ++ text }

unfoldable pub escape_char : ℕ → Bytes
escape_char c =
    if c == b'&'
    then codes "&amp;"
    else if c == b'<'
    then codes "&lt;"
    else if c == b'>'
    then codes "&gt;"
    else if c == b'"'
    then codes "&quot;"
    else if c == 39
    then codes "&apos;"
    else c ∷ []

unfoldable pub escape_xml : Bytes → Bytes
unfolding escape_char
escape_xml [] = []
escape_xml (c ∷ s) = escape_char c ++ escape_xml s

unfoldable pub add_declaration : DavXmlBuilder → DavXmlBuilder
add_declaration = append (codes "<?xml version=\"1.0\" encoding=\"UTF-8\"?>")

unfoldable pub add_dav_ns : DavXmlBuilder → DavXmlBuilder
add_dav_ns = append (codes "<D:multistatus xmlns:D=\"DAV:\">")

unfoldable pub start_response : Bytes → DavXmlBuilder → DavXmlBuilder
unfolding escape_xml
start_response href =
    append (codes "<D:response xmlns:D=\"DAV:\"><D:href>" ++ (escape_xml href ++ codes "</D:href>"))

unfoldable pub end_response : DavXmlBuilder → DavXmlBuilder
end_response = append (codes "</D:response>")

unfoldable pub start_propstat : DavXmlBuilder → DavXmlBuilder
start_propstat = append (codes "<D:propstat>")

unfoldable pub end_propstat : DavXmlBuilder → DavXmlBuilder
end_propstat = append (codes "</D:propstat>")

unfoldable pub start_prop : DavXmlBuilder → DavXmlBuilder
start_prop = append (codes "<D:prop>")

unfoldable pub end_prop : DavXmlBuilder → DavXmlBuilder
end_prop = append (codes "</D:prop>")

unfoldable pub add_status : ℕ → Bytes → DavXmlBuilder → DavXmlBuilder
add_status code msg =
    append
      (codes "<D:status>HTTP/1.1 " ++ (to_string code ++ (b' ' ∷ (msg ++ codes "</D:status>"))))

unfoldable pub add_contentlength : ℕ → DavXmlBuilder → DavXmlBuilder
add_contentlength size =
    append (codes "<D:getcontentlength>" ++ (to_string size ++ codes "</D:getcontentlength>"))

unfoldable pub add_lastmodified : Bytes → DavXmlBuilder → DavXmlBuilder
add_lastmodified date =
    append (codes "<D:getlastmodified>" ++ (date ++ codes "</D:getlastmodified>"))

unfoldable pub add_resourcetype : Bool → DavXmlBuilder → DavXmlBuilder
add_resourcetype is_collection =
    if is_collection
    then append (codes "<D:resourcetype><D:collection/></D:resourcetype>")
    else append (codes "<D:resourcetype/>")

unfoldable pub add_creationdate : Bytes → DavXmlBuilder → DavXmlBuilder
add_creationdate date = append (codes "<D:creationdate>" ++ (date ++ codes "</D:creationdate>"))

unfoldable pub add_displayname : Bytes → DavXmlBuilder → DavXmlBuilder
unfolding escape_xml
add_displayname name =
    append (codes "<D:displayname>" ++ (escape_xml name ++ codes "</D:displayname>"))

unfoldable pub add_supportedlock : DavXmlBuilder → DavXmlBuilder
add_supportedlock = append (
    codes "<D:supportedlock>\n            <D:lockentry>\n"
    ++ (codes "                <D:lockscope><D:exclusive/></D:lockscope>\n"
        ++ (codes "                <D:locktype><D:write/></D:locktype>\n"
            ++ (codes "            </D:lockentry>\n            <D:lockentry>\n"
                ++ (codes "                <D:lockscope><D:shared/></D:lockscope>\n"
                    ++ (codes "                <D:locktype><D:write/></D:locktype>\n"
                        ++ codes "            </D:lockentry>\n        </D:supportedlock>"))))))

unfoldable pub start_multistatus : DavXmlBuilder → DavXmlBuilder
start_multistatus = append (codes "<D:multistatus xmlns:D=\"DAV:\">")

unfoldable pub end_multistatus : DavXmlBuilder → DavXmlBuilder
end_multistatus = append (codes "</D:multistatus>")

-- The text, moved out of the builder.
unfoldable pub build : DavXmlBuilder → Bytes × DavXmlBuilder
unfolding new_builder
build b = (b.xml, new_builder)

unfoldable pub reset : DavXmlBuilder → DavXmlBuilder
unfolding new_builder
reset b = new_builder
