-- ===== src/Api/BlossomClient/Requests.antt =====
-- The methods of `BlossomClient` in api/src/blossom/client.ts as actions on the network. The secret is
-- decoded before the request, outside the `try` block.
use nostr_mesh.Prelude.{ℕ, Bool, ◌++◌, length}
use nostr_mesh.Prelude.Text.{Str, codes}
use nostr_mesh.Prelude.Bytes.{Bytes}
use nostr_mesh.Prelude.Result.{ok}
use nostr_mesh.Api.Failure.{Operation}
use nostr_mesh.Api.Platform.{Platform}
use nostr_mesh.Api.Network.{Network, Action, lift, call, ◌>>=◌}
use nostr_mesh.Api.BlossomClient.{
  BlossomVerb, upload, BlossomClient, BlossomUploadResult, build_auth_header, catching, read_upload,
  read_download, is_success,
}

-- The three methods; the answers are the network's.
module _ (p : Platform) (net : Network) (client : BlossomClient) (now : ℕ) where
  open net use {World}

  unfoldable pub upload_blob : Bytes → Str → Action World BlossomUploadResult
  upload_blob payload filename = do
    auth_header ←
        lift (build_auth_header p client.secret_key_hex now upload (codes "Upload " ++ filename) 60)
    response ← call (net.put (client.base_url ++ codes "/upload") auth_header payload)
    lift (catching Operation.upload (read_upload client.base_url (length payload)) response)

  unfoldable pub download_blob : Str → Action World Bytes
  download_blob sha256 = do
    auth_header ←
        lift (
          build_auth_header p client.secret_key_hex now BlossomVerb.get (codes "Get " ++ sha256) 60)
    response ← call (net.get (client.base_url ++ (codes "/" ++ sha256)) auth_header)
    lift (catching Operation.download read_download response)

  unfoldable pub check_blob : Str → Action World Bool
  check_blob sha256 = do
    auth_header ←
        lift (
          build_auth_header p client.secret_key_hex now BlossomVerb.get (codes "Head " ++ sha256)
            60)
    response ← call (net.head (client.base_url ++ (codes "/" ++ sha256)) auth_header)
    lift (catching Operation.head (λ r. ok (is_success r.status)) response)
