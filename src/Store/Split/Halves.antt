-- ===== src/Store/Split/Halves.antt =====
-- The two halves of a range at a point.
use iroh_willow.Prelude.{
  ℕ, ◌+◌, ◌≡◌, refl, ap, sym, ◌∙◌, Bool, true, false, ◌&&◌, not, if◌then◌else◌, arith, List, [],
  ◌∷◌,
}
use iroh_willow.Model.{DataModel}
use iroh_willow.Store.Ranges.{RangeType, RangeLaws, Ranges}
use iroh_willow.Store.Split.{Range3d, includes_entry}

module _ {Point : Type 0} (t : RangeType Point) (laws : RangeLaws t) where
  below_here :
      (r : t.Range) (mid : Point) → t.includes r mid ≡ true → t.below mid (t.range_end r) ≡ true
  below_here r mid here = ground (arith, laws.includes_lem r mid)

  pub start_le :
      (r : t.Range) (mid : Point) → t.includes r mid ≡ true → t.le (t.range_start r) mid ≡ true
  start_le r mid here = ground (arith, laws.includes_lem r mid)

  le_unless : (a b : Point) → t.le a b ≡ false → t.le b a ≡ true
  le_unless a b e = ground (arith, laws.le_total a b)

  lower_bools : (s b l : Bool) → (l ≡ false → b ≡ true) → (s && not l) ≡ ((s && b) && not l)
  lower_bools true true l f = refl
  lower_bools true false true f = refl
  lower_bools true false false f = ground (arith, f refl)
  lower_bools false b l f = refl

  upper_bools : (s b l : Bool) → (l ≡ true → s ≡ true) → (l && b) ≡ ((s && b) && l)
  upper_bools true true true f = refl
  upper_bools true true false f = refl
  upper_bools true false l f = ground arith
  upper_bools false b true f = ground (arith, f refl)
  upper_bools false b false f = refl

  pub includes-lower :
      (r : t.Range) (mid p : Point)
      → t.includes r mid ≡ true
      → t.includes (t.new (t.range_start r) (t.closed mid)) p ≡ (t.includes r p && not (t.le mid p))
  includes-lower r mid p here =
      let s : Point = t.range_start r in
      laws.includes_lem (t.new s (t.closed mid)) p
      ∙ ap (λ q. t.le q p && t.below p (t.range_end (t.new s (t.closed mid))))
          (laws.start-new s (t.closed mid))
      ∙ ap (λ e. t.le s p && t.below p e) (laws.end-new s (t.closed mid))
      ∙ ap (λ b. t.le s p && b) (laws.below-closed p mid)
      ∙ lower_bools (t.le s p) (t.below p (t.range_end r)) (t.le mid p)
          (λ e. laws.below_down p mid (t.range_end r) (le_unless mid p e) (below_here r mid here))
      ∙ ap (λ b. b && not (t.le mid p)) (sym (laws.includes_lem r p))

  pub includes-upper :
      (r : t.Range) (mid p : Point)
      → t.includes r mid ≡ true
      → t.includes (t.new mid (t.range_end r)) p ≡ (t.includes r p && t.le mid p)
  includes-upper r mid p here =
      let e : t.RangeEnd = t.range_end r in
      laws.includes_lem (t.new mid e) p
      ∙ ap (λ q. t.le q p && t.below p (t.range_end (t.new mid e))) (laws.start-new mid e)
      ∙ ap (λ b. t.le mid p && t.below p b) (laws.end-new mid e)
      ∙ upper_bools (t.le (t.range_start r) p) (t.below p e) (t.le mid p)
          (λ le. laws.le_trans (t.range_start r) mid p (start_le r mid here) le)
      ∙ ap (λ b. b && t.le mid p) (sym (laws.includes_lem r p))

module _ {m : DataModel} (d : Ranges m) where
  -- How many of the ranges include an entry.
  unfoldable pub covers : List (Range3d d) → m.Entry → ℕ
  covers [] e = 0
  covers (r ∷ rs) e = (if includes_entry d r e then 1 else 0) + covers rs e

  -- Each entry of a range is in exactly one of the parts, and no other entry in any.
  abbrev pub Partitions : Range3d d → List (Range3d d) → Type 0
  Partitions r parts = (e : m.Entry) → covers parts e ≡ (if includes_entry d r e then 1 else 0)

  cover_bools :
      (b1 b2 b c : Bool)
      → b1 ≡ (b && not c)
      → b2 ≡ (b && c)
      → (if b1 then 1 else 0) + ((if b2 then 1 else 0) + 0) ≡ (if b then 1 else 0)
  cover_bools b1 b2 true true e f = rw (e, f) (omega arith)
  cover_bools b1 b2 true false e f = rw (e, f) (omega arith)
  cover_bools b1 b2 false c e f = rw (e, f) (omega arith)

  pub halves-Partitions :
      (r low high : Range3d d) (upper : m.Entry → Bool)
      → ((e : m.Entry) → includes_entry d low e ≡ (includes_entry d r e && not (upper e)))
      → ((e : m.Entry) → includes_entry d high e ≡ (includes_entry d r e && upper e))
      → Partitions r (low ∷ high ∷ [])
  unfolding covers
  halves-Partitions r low high upper f g e =
      cover_bools (includes_entry d low e) (includes_entry d high e) (includes_entry d r e)
        (upper e) (f e) (g e)
