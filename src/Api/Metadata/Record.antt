-- ===== src/Api/Metadata/Record.antt =====
-- `BlobMetadata` of api/src/metadata/schema.ts. A JavaScript number as a size is a whole number, a
-- negative one, or no integer.
use nostr_mesh.Prelude.{ℕ, Bool, Option}
use nostr_mesh.Prelude.Text.{Str}

pub data Size : Type 0 where
  whole : ℕ → Size
  negative : ℕ → Size
  fractional : Size

pub record BlobMetadata : Type 0 where
  pub name : Str
  pub hash : Str
  pub size : Size
  pub type : Str
  pub folder : Str
  pub uploaded_at : ℕ
  pub server : Str
  pub encryption_key : Str
  pub deleted : Option Bool
