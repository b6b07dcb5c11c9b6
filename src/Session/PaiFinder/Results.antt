-- ===== src/Session/PaiFinder/Results.antt =====
-- Which inputs src/session/pai_finder.rs fails on, after any inputs.
use iroh_willow.Prelude.{◌≡◌, refl, none, List, [], ◌∷◌}
use iroh_willow.Session.Error.{panicked, err, ok}
use iroh_willow.Session.Pai.{Psi}
use iroh_willow.Session.PaiFinder.{
  PaiFinder, Input, Outcome, established, submit_authorisation_input, received_bind, received_reply,
  received_subspace_cap_request_input, received_verified_subspace_cap_reply_input,
  received_read_cap_for_intersection_input, and_then, new,
}
use iroh_willow.Session.PaiFinder.Inputs.{input, run}
use iroh_willow.Session.PaiFinder.Known.{
  IsKnown, submit_all-IsKnown, new-IsKnown, submit_authorisation-IsKnown,
}
use iroh_willow.Session.PaiFinder.Succeeds.{option_cases}
use iroh_willow.Session.PaiFinder.Gives.{
  expected, Gives, bind-Gives, reply-Gives, request-Gives, read_cap-Gives, verified-Gives,
}

module _ {P : Psi} where
  input_lem : (i : Input P) (f : PaiFinder P) → IsKnown f → Gives (input i f) (expected i f)
  unfolding input
  input_lem established f known =
      option_cases f.waiting (refl, known)
        (λ waiting. (
          refl,
          submit_all-IsKnown waiting (record f { waiting = none })
              (record { infos = known.infos; requested = known.requested }),
        ))
  input_lem (submit_authorisation_input a) f known =
      option_cases f.waiting (refl, submit_authorisation-IsKnown a f known)
        (λ waiting. (refl, record { infos = known.infos; requested = known.requested }))
  input_lem (received_bind member b) f known = bind-Gives member b f known
  input_lem (received_reply h member) f known = reply-Gives h member f known
  input_lem (received_subspace_cap_request_input h) f known = request-Gives h f known
  input_lem (received_verified_subspace_cap_reply_input h n) f known = verified-Gives h n f known
  input_lem (received_read_cap_for_intersection_input h) f known = read_cap-Gives h f known

  then-IsKnown :
      (r : Outcome P) (next : PaiFinder P → Outcome P)
      → IsKnown r.1
      → ((f : PaiFinder P) → IsKnown f → IsKnown (next f).1)
      → IsKnown (and_then r next).1
  then-IsKnown (ok _, f) next known keeps = keeps f known
  then-IsKnown (err e, f) next known keeps = known
  then-IsKnown (panicked, f) next known keeps = known

  run-IsKnown : (is : List (Input P)) (f : PaiFinder P) → IsKnown f → IsKnown (run is f).1
  unfolding run
  run-IsKnown [] f known = known
  run-IsKnown (i ∷ is) f known =
      then-IsKnown (input i f) (run is) (input_lem i f known).1 (run-IsKnown is)

  -- After any inputs to a new finder, whether or not one of them failed, the result of a further input is
  -- the expected one. Submitting and establishing succeed; a fragment fails exactly if it is no point; a
  -- reply exactly if it is no point or its handle is not bound by us; a request for a capability, and a
  -- read capability, exactly if the handle is not bound by the peer; and a reply with a capability
  -- exactly if it was not requested, or names another namespace than our fragment.
  pub input-after_run :
      (s : P.PsiScalar) (is : List (Input P)) (i : Input P)
      → let f = (run is (new s)).1 in (input i f).0 ≡ expected i f
  input-after_run s is i =
      (input_lem i (run is (new s)).1 (run-IsKnown is (new s) (new-IsKnown s))).0
