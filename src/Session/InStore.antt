-- ===== src/Session/InStore.antt =====
-- The parameter Storage of a session, filled by the in-memory store of src/store/memory.rs with the
-- methods of `EntryReader` in src/store/traits.rs. What is outside of the entry store (the tokens of
-- an entry, payloads, and the conversion of an area to a range) stays a parameter.
pub mod Coverage
mod Tests
use iroh_willow.Prelude.{ℕ, Bool, Option, List, [], map}
use iroh_willow.Model.{DataModel}
use iroh_willow.Session.Error.{Result, ok, err, panicked}
use iroh_willow.Session.Storage.{Bytes, Storage, SplitAction}
use iroh_willow.Store.Memory.{EntryStore, get_authorised_entries}
use iroh_willow.Store.Ranges.{Ranges}
use iroh_willow.Store.Fingerprint.{Fingerprint, same_bits, is_empty_fingerprint}
use iroh_willow.Store.Split.{Range3d, SplitOpts, includes_entry, fingerprint, split_range}

pub record Outside {m : DataModel} (d : Ranges m) : Type 1 where
  pub StaticToken : Type 0
  pub DynamicToken : Type 0
  pub tokens_of : m.AuthorisedEntry → StaticToken × DynamicToken
  pub to_range : m.Area → Range3d d
  pub payload_chunks : ℕ → Option (List Bytes)
  pub same_token : StaticToken → StaticToken → Bool
  pub authorises : m.Entry → StaticToken → DynamicToken → Bool
  pub takes_chunk : ℕ → ℕ → ℕ → List Bytes → Bool
  pub imports : ℕ → ℕ → ℕ → List Bytes → Bool

module _ {m : DataModel} (d : Ranges m) where
  -- The parts; a split that fails has none here.
  unfoldable pub parts_or_none :
      Result (List (Range3d d × SplitAction Fingerprint))
      → List (Range3d d × SplitAction Fingerprint)
  parts_or_none (ok parts) = parts
  parts_or_none (err _) = []
  parts_or_none panicked = []

  abbrev pub storage_of : Outside d → SplitOpts → EntryStore m → Storage
  storage_of o opts s = record {
    Namespace = ℕ;
    Area = m.Area;
    Range = Range3d d;
    Fingerprint = Fingerprint;
    Entry = m.Entry;
    Digest = ℕ;
    StaticToken = o.StaticToken;
    DynamicToken = o.DynamicToken;
    to_range = o.to_range;
    fingerprint = λ namespace r. fingerprint d namespace r s;
    same_fingerprint = same_bits;
    is_empty_fingerprint = is_empty_fingerprint;
    split_range = λ namespace r. parts_or_none (split_range d namespace r opts s);
    get_authorised_entries = λ namespace r.
        map (λ a. (m.entry a, (o.tokens_of a).0, (o.tokens_of a).1))
          (get_authorised_entries m namespace (includes_entry d r) s);
    payload_digest = m.payload_digest;
    payload_length = m.payload_length;
    payload_chunks = o.payload_chunks;
    same_token = o.same_token;
    authorises = o.authorises;
    takes_chunk = o.takes_chunk;
    imports = o.imports;
  }
