-- ===== src/Api/Network.antt =====
-- What the API reaches over the network, as a parameter: the blob server through axios, and relays
-- through nostr-tools' `SimplePool`. Their state is a world that each call may change. An action of
-- the API changes that world and returns or throws; what it changed before it threw stays.
use nostr_mesh.Prelude.{ℕ, ◌≡◌, refl, ap, Bool, Option, List}
use nostr_mesh.Prelude.Text.{Str}
use nostr_mesh.Prelude.Result.{Result, ok, err}
use nostr_mesh.Prelude.Bytes.{Bytes}
use nostr_mesh.Nostr.{Event}
use nostr_mesh.Api.Failure.{Failure}
use nostr_mesh.Api.Metadata.{HashFilter}

-- What a call of axios throws, by the tests of `normalizeBlossomError`.
pub data Thrown : Type 0 where
  no_response : Thrown
  with_response : Option Str → Str → Str → Thrown
  plain_error : Failure → Thrown
  not_an_error : Thrown

pub record Response (A : Type 0) : Type 0 where
  pub status : ℕ
  pub x_reason : Str
  pub status_text : Str
  pub body : A

pub data Answer (A : Type 0) : Type 0 where
  answered : Response A → Answer A
  threw : Thrown → Answer A

-- The fields of the JSON body of an upload, each of which may be missing.
pub record UploadBody : Type 0 where
  pub sha256 : Option Str
  pub x : Option Str
  pub size : Option ℕ
  pub url : Option Str

-- nostr-tools' `Filter`, as the API fills it.
pub data Filter : Type 0 where
  by_hash : HashFilter → Filter
  by_ids : List Str → ℕ → Filter

-- `publish` gives one outcome for each relay, true if it accepted the event; `query_sync` gives what
-- the relays returned, or throws.
pub record Network : Type 1 where
  pub World : Type 0
  pub put : Str → Str → Bytes → World → Answer UploadBody × World
  pub get : Str → Str → World → Answer Bytes × World
  pub head : Str → Str → World → Answer (Unit {0}) × World
  pub publish : List Str → Event → World → List Bool × World
  pub query_sync : List Str → Filter → World → Result Failure (List Event) × World

abbrev pub Action : Type 0 → Type 0 → Type 0
Action W A = W → Result Failure A × W

module _ {W A : Type 0} where
  abbrev pub lift : Result Failure A → Action W A
  lift r w = (r, w)

  -- A call that only answers.
  abbrev pub call : (W → A × W) → Action W A
  call f w = let (a, w') = f w in (ok a, w')

module _ {W A B : Type 0} where
  abbrev pub continue : Result Failure A → (A → Action W B) → Action W B
  continue (ok a) f w = f a w
  continue (err e) f w = (err e, w)

  infixl 5 ◌>>=◌ ◌>>◌
  abbrev pub ◌>>=◌ : Action W A → (A → Action W B) → Action W B
  ◌>>=◌ m f w = let (r, w') = m w in continue r f w'

  abbrev pub ◌>>◌ : Action W A → Action W B → Action W B
  m >> k = m >>= λ _. k

  continue-eq-ok :
      (r : Result Failure A) (f : A → Action W B) (w w' : W) (b : B)
      → continue r f w ≡ (ok b, w')
      → (a : A) × (r ≡ ok a) × (f a w ≡ (ok b, w'))
  continue-eq-ok (ok a) f w w' b h = (a, refl, h)
  continue-eq-ok (err e) f w w' b h = cc (ap (λ pair. pair.0) h)

  -- When a block of actions returned, its first action returned, and so did the rest.
  pub >>=-eq-ok :
      (m : Action W A) (f : A → Action W B) (w w' : W) (b : B)
      → (m >>= f) w ≡ (ok b, w')
      → (a : A) × ((m w).0 ≡ ok a) × (f a (m w).1 ≡ (ok b, w'))
  >>=-eq-ok m f w w' b h = continue-eq-ok (m w).0 f (m w).1 w' b h
