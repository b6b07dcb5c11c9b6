-- ===== src/Engine/PeerManager/Count.antt =====
-- Where the intents of src/engine/peer_manager.rs are: pending at a peer, or handed on to a session
-- or back to their owner.
use iroh_willow.Prelude.{
  ℕ, suc, ◌+◌, ◌==◌, ◌≡◌, refl, List, [], ◌∷◌, ◌++◌, if◌then◌else◌, arith, none,
}
use iroh_willow.Prelude.Map.{Map, lookup, put, remove, lookup_or, IsDistinct}
use iroh_willow.Engine.PeerManager.{
  PeerInfo, Effect, submit_to_session, init_session, abort_intents, Manager, new_peer, emit,
  set_peer, remove_peer,
}

unfoldable pub count : ℕ → List ℕ → ℕ
count x [] = 0
count x (y ∷ ys) = if y == x then suc (count x ys) else count x ys

unfoldable pub pending : ℕ → Map PeerInfo → ℕ
pending x [] = 0
pending x ((_, info) ∷ peers) = count x info.pending_intents + pending x peers

unfoldable pub settles : ℕ → Effect → ℕ
settles x (submit_to_session _ y) = count x (y ∷ [])
settles x (init_session _ _ ys) = count x ys
settles x (abort_intents ys) = count x ys
settles x _ = 0

unfoldable pub settled : ℕ → List Effect → ℕ
settled x [] = 0
settled x (e ∷ es) = settles x e + settled x es

unfoldable pub held : ℕ → Manager → ℕ
held x m = pending x m.peers + settled x m.effects

unfoldable pub waiting : ℕ → ℕ → Map PeerInfo → ℕ
waiting x k peers = count x (lookup_or new_peer k peers).pending_intents

pub count-append : (x : ℕ) (ys zs : List ℕ) → count x (ys ++ zs) ≡ count x ys + count x zs
unfolding count
count-append x [] zs = omega arith
count-append x (y ∷ ys) zs = ground (arith, count-append x ys zs)

pub settled-append :
    (x : ℕ) (es fs : List Effect) → settled x (es ++ fs) ≡ settled x es + settled x fs
unfolding settled
settled-append x [] fs = omega arith
settled-append x (e ∷ es) fs = omega (arith, settled-append x es fs)

pub pending-put :
    (x k : ℕ) (info : PeerInfo) (peers : Map PeerInfo)
    → pending x (put k info peers) + waiting x k peers
      ≡ pending x peers + count x info.pending_intents
unfolding pending waiting new_peer count
pending-put x k info [] = omega arith
pending-put x k info ((j, i) ∷ peers) = ground (arith, pending-put x k info peers)

pending-remove_absent :
    (x k : ℕ) (peers : Map PeerInfo)
    → lookup k peers ≡ none
    → pending x (remove k peers) ≡ pending x peers
unfolding pending
pending-remove_absent x k [] e = refl
pending-remove_absent x k ((j, i) ∷ peers) e = ground (arith, pending-remove_absent x k peers)

pub pending-remove :
    (x k : ℕ) (peers : Map PeerInfo)
    → IsDistinct peers
    → pending x (remove k peers) + waiting x k peers ≡ pending x peers
unfolding pending waiting new_peer count
pending-remove x k [] d = refl
pending-remove x k ((j, i) ∷ peers) d =
    ground (arith, pending-remove x k peers d.1, pending-remove_absent x k peers)

pub held-set_peer :
    (x k : ℕ) (info : PeerInfo) (m : Manager)
    → held x (set_peer k info m) + waiting x k m.peers ≡ held x m + count x info.pending_intents
unfolding held set_peer
held-set_peer x k info m = omega (arith, pending-put x k info m.peers)

pub held-remove_peer :
    (x k : ℕ) (m : Manager)
    → IsDistinct m.peers
    → held x (remove_peer k m) + waiting x k m.peers ≡ held x m
unfolding held remove_peer
held-remove_peer x k m d = omega (arith, pending-remove x k m.peers d)

pub held-emit : (x : ℕ) (e : Effect) (m : Manager) → held x (emit e m) ≡ held x m + settles x e
unfolding held emit settled
held-emit x e m = omega (arith, settled-append x m.effects (e ∷ []))
