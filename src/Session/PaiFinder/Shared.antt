-- ===== src/Session/PaiFinder/Shared.antt =====
-- What comparing group members finds out about the fragments behind them.
use iroh_willow.Prelude.{
  arith, ℕ, ◌≡◌, sym, ◌∙◌, ◌↔◌, ◌⊎◌, Bool, true, some, List, [], ◌∷◌, if◌then◌else◌,
}
use iroh_willow.Prelude.Map.{Map}
use iroh_willow.Session.Pai.{
  Psi, FragmentKind, is_secondary_kind, Fragment, hash_into_group, primary,
}
use iroh_willow.Session.PaiFinder.{
  GroupState, new_pending, new_complete, is_complete, completes_with,
}

-- What the finder relies on: points survive compression, multiplications commute, and the test for
-- equal points is exact.
pub record PsiLaws (P : Psi) : Type 0 where
  pub from-to : (g : P.PsiGroup) → P.from_bytes (P.to_bytes g) ≡ some g
  pub mult_comm :
      (g : P.PsiGroup) (s t : P.PsiScalar)
      → P.scalar_mult (P.scalar_mult g s) t ≡ P.scalar_mult (P.scalar_mult g t) s
  pub equal_iff : (g h : P.PsiGroup) → (P.is_group_equal g h ≡ true) ↔ (g ≡ h)

-- Multiplying by a scalar can be undone, as it can in a group of prime order unless the scalar is 0.
abbrev pub CanUndo : (P : Psi) → P.PsiScalar → Type 0
CanUndo P s = (g h : P.PsiGroup) → P.scalar_mult g s ≡ P.scalar_mult h s → g ≡ h

-- A fragment that a peer bound to a handle, and whether the reply for it has come.
pub record Entered (P : Psi) : Type 0 where
  pub handle : ℕ
  pub fragment : Fragment P
  pub kind : FragmentKind
  pub replied : Bool

module _ {P : Psi} where
  -- A fragment that hashes to the same point, not secondary for both peers.
  abbrev pub IsShared : Fragment P → FragmentKind → Entered P → Type 0
  IsShared x k e =
      (e.replied ≡ true)
      × (hash_into_group e.fragment ≡ hash_into_group x)
      × ((e.kind ≡ primary) ⊎ (k ≡ primary))

  -- The state of a fragment that was multiplied by `a`, and by `b` in the reply.
  abbrev pub state_of : P.PsiScalar → P.PsiScalar → Entered P → GroupState P
  state_of a b e =
      if e.replied
      then new_complete (P.scalar_mult (P.scalar_mult (hash_into_group e.fragment) a) b)
          (is_secondary_kind e.kind)
      else new_pending (P.scalar_mult (hash_into_group e.fragment) a) (is_secondary_kind e.kind)

  abbrev pub states : P.PsiScalar → P.PsiScalar → List (Entered P) → Map (GroupState P)
  states a b [] = []
  states a b (e ∷ es) = (e.handle, state_of a b e) ∷ states a b es

module _ {P : Psi} (laws : PsiLaws P) where
  same_point :
      (x y : Fragment P) (a b : P.PsiScalar)
      → CanUndo P a
      → CanUndo P b
      → P.scalar_mult (P.scalar_mult (hash_into_group y) a) b
        ≡ P.scalar_mult (P.scalar_mult (hash_into_group x) b) a
      → hash_into_group y ≡ hash_into_group x
  same_point x y a b undo_a undo_b e =
      let hx = hash_into_group x in
      let hy = hash_into_group y in
      undo_b hy hx
        (undo_a (P.scalar_mult hy b) (P.scalar_mult hx b) (sym (laws.mult_comm hy a b) ∙ e))

  same_group :
      (x y : Fragment P) (a b : P.PsiScalar)
      → hash_into_group y ≡ hash_into_group x
      → P.scalar_mult (P.scalar_mult (hash_into_group y) a) b
        ≡ P.scalar_mult (P.scalar_mult (hash_into_group x) b) a
  same_group x y a b e = rw e (laws.mult_comm (hash_into_group x) a b)

  -- Comparing the group members of two fragments compares the points that they hash to.
  pub completes_with_iff :
      (a b : P.PsiScalar)
      → CanUndo P a
      → CanUndo P b
      → (x : Fragment P) (k : FragmentKind) (e : Entered P)
      → (completes_with (state_of a b e) (
            new_complete
              (P.scalar_mult (P.scalar_mult (hash_into_group x) b) a)
              (is_secondary_kind k))
          ≡ true)
        ↔ IsShared x k e
  unfolding completes_with is_complete new_complete new_pending is_secondary_kind
  completes_with_iff a b undo_a undo_b x k e =
      let gy = P.scalar_mult (P.scalar_mult (hash_into_group e.fragment) a) b in
      let gx = P.scalar_mult (P.scalar_mult (hash_into_group x) b) a in
      (
        λ h. ground (arith, laws.equal_iff gy gx, same_point x e.fragment a b undo_a undo_b),
        λ h. ground (arith, laws.equal_iff gy gx, same_group x e.fragment a b),
      )
