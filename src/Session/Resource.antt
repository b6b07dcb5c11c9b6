-- ===== src/Session/Resource.antt =====
-- `ResourceMap` of src/session/resource.rs: resources bound to consecutive handles, and the wakers
-- of those who wait for a handle. A handle is its number, a waker a number; a waker that is woken
-- is returned.
pub mod Laws
mod Tests
use iroh_willow.Prelude.{
  ℕ, ◌+◌, ◌%◌, ◌^◌, Bool, true, false, Option, none, some, List, [], ◌∷◌, ◌++◌, if◌then◌else◌,
}
use iroh_willow.Prelude.Map.{Map, lookup, put, remove, lookup_or}
use iroh_willow.Session.Error.{Result, ok, err, Error}

pub record ResourceMap (R : Type 0) : Type 0 where
  pub next_handle : ℕ
  pub map : Map R
  pub wakers : Map (List ℕ)

-- `Poll<&R>`.
pub data PollResource (R : Type 0) : Type 0 where
  ready : R → PollResource R
  pending : PollResource R

-- What a binding returns: the handle, the wakers that it wakes, and the map afterwards.
pub record Bound (R : Type 0) : Type 0 where
  pub handle : ℕ
  pub woken : List ℕ
  pub after : ResourceMap R

module _ {R : Type 0} where
  unfoldable pub empty_map : ResourceMap R
  empty_map = record { next_handle = 0; map = []; wakers = [] }

  -- The counter is a u64.
  unfoldable pub bind : R → ResourceMap R → Bound R
  bind resource m = record {
    handle = m.next_handle;
    woken = lookup_or [] m.next_handle m.wakers;
    after = record {
      next_handle = (m.next_handle + 1) % 2 ^ 64;
      map = put m.next_handle resource m.map;
      wakers = remove m.next_handle m.wakers;
    };
  }

  unfoldable pub try_get : ℕ → ResourceMap R → Result R
  try_get handle m = elim (lookup handle m.map) [
    | none ↦ err Error.missing_resource
    | some resource ↦ ok resource
  ]

  unfoldable pub poll_get_eventually : ℕ → ℕ → ResourceMap R → PollResource R × ResourceMap R
  poll_get_eventually handle waker m = elim (lookup handle m.map) [
    | some resource ↦ (ready resource, m)
    | none ↦ (
      pending,
      record m { wakers = put handle (lookup_or [] handle m.wakers ++ waker ∷ []) m.wakers },
    )
  ]

  unfoldable pub update : ℕ → R → ResourceMap R → Result (ResourceMap R)
  update handle resource m = elim (lookup handle m.map) [
    | none ↦ err Error.missing_resource
    | some _ ↦ ok (record m { map = put handle resource m.map })
  ]

  -- `find_map` over the entries: the first one that holds the resource.
  unfoldable pub find_handle : (R → R → Bool) → R → Map R → Option ℕ
  find_handle eq resource [] = none
  find_handle eq resource ((handle, r) ∷ rest) =
      if eq r resource then some handle else find_handle eq resource rest

  unfoldable pub find : (R → R → Bool) → R → ResourceMap R → Option ℕ
  find eq resource m = find_handle eq resource m.map

  -- The second part says whether the resource was new.
  unfoldable pub bind_if_new : (R → R → Bool) → R → ResourceMap R → Bound R × Bool
  bind_if_new eq resource m = elim (find_handle eq resource m.map) [
    | some handle ↦ (record { handle = handle; woken = []; after = m }, false)
    | none ↦ (bind resource m, true)
  ]
