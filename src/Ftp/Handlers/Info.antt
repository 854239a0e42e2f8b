-- ===== src/Ftp/Handlers/Info.antt =====
-- MDTM, NOOP, FEAT and OPTS: replies that depend on nothing but the argument.
use net_files.Base.{Bytes, codes, equal, if◌then◌else◌, done}
use net_files.Ftp.Types.{Reply, file_status_okay, command_okay, help_message}
use net_files.Ftp.World.{M}

unfoldable pub handle_mdtm : Bytes → M Reply
handle_mdtm arg w = (done (file_status_okay, codes "20230401120000"), w)

unfoldable pub handle_noop : Bytes → M Reply
handle_noop arg w = (done (command_okay, codes "OK"), w)

-- Each line of the text but the last ends in CR LF.
features : Bytes
features =
    codes
      "Extensions supported:\r\n SIZE\r\n MDTM\r\n MLST modify*;size;type;\r\n MLSD\r\n TVFS\r\n UTF8\r\n EPSV\r\n EPRT\r\n 211 End"

unfoldable pub handle_feat : Bytes → M Reply
unfolding features
handle_feat arg w = (done (help_message, features), w)

unfoldable pub handle_opts : Bytes → M Reply
handle_opts arg w =
    if equal arg (codes "UTF8 ON")
    then (done (command_okay, codes "OK, UTF8 enabled"), w)
    else (done (command_okay, codes "Options set"), w)
