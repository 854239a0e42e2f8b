-- ===== src/Webdav/Resource/Types.antt =====
-- The data of netfiles/src/webdav/dav_resource.hpp.
use net_files.Base.{ℕ, Bool, List, Bytes}

pub record DavLock : Type 0 where
  pub token : Bytes
  pub owner : Bytes
  pub expires : ℕ
  pub exclusive : Bool
  pub path : Bytes

pub data ResourceType : Type 0 where
  file collection : ResourceType

-- `DavFile` and `DavCollection`: the classes have the same fields.
pub record DavResource : Type 0 where
  pub type : ResourceType
  pub path : Bytes
  pub active_locks : List DavLock
