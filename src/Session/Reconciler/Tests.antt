-- ===== src/Session/Reconciler/Tests.antt =====
-- The theorems on the reconciler's targets at concrete inputs.
use iroh_willow.Prelude.{ℕ, List, ◌≡◌, ◌⊎◌, true, false, none, some, [], ◌∷◌}
use iroh_willow.Session.Error.{ok, panicked}
use iroh_willow.Session.Challenge.{betty}
use iroh_willow.Session.Target.{Target}
use iroh_willow.Session.Reconciler.{Reconciler, find_target, get_eventually}
use iroh_willow.Session.Reconciler.Targets.{in_inbox, get_eventually_cases}
use iroh_willow.Session.Toy.{toy, tokens, intersection, target}

-- One target, and the intersection of another to come.
abbrev one : Reconciler toy
one = record {
  targets = ((4, 6), target) ∷ [];
  inbox = record intersection { our_handle = 8 } ∷ [];
  entry_state = none;
  tokens = tokens;
  sent = [];
  outputs = [];
  ingested = [];
}

get_eventually_cases_example :
    ((t : Target toy) × (r' : Reconciler toy) × (get_eventually betty (8, 6) one ≡ ok (t, r'))
      × (find_target (8, 6) r'.targets ≡ some t)
      × ((find_target (8, 6) one.targets ≡ some t)
          ⊎ (in_inbox {S = toy} betty (8, 6) one.inbox ≡ true)))
    ⊎ ((get_eventually betty (8, 6) one ≡ panicked)
        × (find_target (8, 6) one.targets ≡ none)
        × (in_inbox {S = toy} betty (8, 6) one.inbox ≡ false))
get_eventually_cases_example = get_eventually_cases betty (8, 6) one

-- The target waits for two entries, of which the second has the token of the first.
abbrev alone : Reconciler toy
alone = record one { inbox = [] }

abbrev two : List (ℕ × ℕ × ℕ)
two = (10, 1, 2) ∷ (11, 1, 3) ∷ []
