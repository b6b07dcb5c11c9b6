-- ===== src/Session/Resource/Tests.antt =====
-- Runs of the resource map, and the theorems on it at concrete inputs.
use iroh_willow.Prelude.{ℕ, ◌≡◌, refl, true, [], ◌∷◌, ◌==◌, ==_iff, arith}
use iroh_willow.Session.Resource.{
  ResourceMap, pending, bind, try_get, poll_get_eventually, update, find_handle, bind_if_new,
}
use iroh_willow.Session.Resource.Laws.{IsValid, Rebinds, waiting_is_woken, bind_if_new-Rebinds}

program : Unit {0}
unfolding bind try_get poll_get_eventually update find_handle bind_if_new
program = tt

-- Two resources, and two wakers that wait for the third.
abbrev two : ResourceMap ℕ
two = record { next_handle = 2; map = (0, 70) ∷ (1, 80) ∷ []; wakers = (2, 5 ∷ 6 ∷ []) ∷ [] }

two-IsValid : IsValid two
two-IsValid = record { below = omega arith; distinct = (refl, (refl, tt)) }

bind_if_new_runs : bind_if_new ◌==◌ 90 two ≡ (
  record {
    handle = 2;
    woken = 5 ∷ 6 ∷ [];
    after = record { next_handle = 3; map = (0, 70) ∷ (1, 80) ∷ (2, 90) ∷ []; wakers = [] };
  },
  true,
)
unfolding program
bind_if_new_runs = refl

waiting_is_woken_example :
    let (polled, m') = poll_get_eventually 2 9 two in
    (polled ≡ pending)
    × ((bind 80 m').handle ≡ 2)
    × ((bind 80 m').woken ≡ 5 ∷ 6 ∷ 9 ∷ [])
    × ((bind 80 m').after.map ≡ (bind 80 two).after.map)
waiting_is_woken_example = waiting_is_woken two 80 9 two-IsValid

bind_if_new-Rebinds_example : Rebinds ◌==◌ ==_iff two 80 (bind_if_new ◌==◌ 80 two).0
bind_if_new-Rebinds_example = bind_if_new-Rebinds ◌==◌ ==_iff two 80 two-IsValid (omega arith)
