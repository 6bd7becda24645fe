-- ===== src/Workflow/Search/Paint.antt =====
-- What painting one key grey and then black does to the search's invariant.
use pm.Workflow.Config.{Defs}
use pm.Workflow.Search.{Colour, white, grey, black, Colours, paint}
use pm.Workflow.Search.Walks.{Edge}
use pm.Workflow.Search.Invariant.{Grows, Ranked}
use pm.Prelude.{
  ℕ, ◌+◌, ◌<◌, ◌≡◌, refl, sym, ap, ◌∙◌, subst, ◌≢◌, inl, inr, true, false, List, [], ◌∷◌, ◌++◌,
  arith, if◌then◌else◌, Bool-cases, Text, same, same_eq, same_refl, contains, contains-append,
}

pub paint_self : (k : Text) (v : Colour) (c : Colours) → paint k v c k ≡ v
unfolding paint
paint_self k v c = rw (same_refl k) refl

-- A colour at a key that is not `k`'s is not `k`.
pub apart : (k j : Text) (c : Colours) (u v : Colour) → c k ≡ u → c j ≡ v → u ≢ v → same j k ≡ false
apart k j c u v p q n = elim (Bool-cases (same j k)) [
  | inl e ↦ absurd (n (sym p ∙ ap c (sym (same_eq j k e)) ∙ q))
  | inr e ↦ e
]

unpaint_black : (k j : Text) (c : Colours) → paint k grey c j ≡ black → c j ≡ black
unfolding paint
unpaint_black k j c h = ground arith

repaint_black :
    (k j : Text) (v : Colour) (c : Colours) {u : Colour}
    → c k ≡ u
    → u ≢ black
    → c j ≡ black
    → paint k v c j ≡ black
unfolding paint
repaint_black k j v c {u} p n h = rw (apart k j c u black p h n) h

pub Ranked-grey :
    (defs : Defs) (k : Text) (c : Colours)
    → c k ≡ white
    → Ranked defs c
    → Ranked defs (paint k grey c)
Ranked-grey defs k c w r = record {
  rank = r.rank;
  bound = r.bound;
  below = λ j h. r.below j (unpaint_black k j c h);
  closed = λ j d e h. repaint_black k d grey c w (λ q. cc) (r.closed j d e (unpaint_black k j c h));
  falls = λ j d e h. r.falls j d e (unpaint_black k j c h);
}

abbrev new_rank : (Text → ℕ) → ℕ → Text → Text → ℕ
new_rank rank bound k j = if same j k then bound else rank j

module _ (defs : Defs) (k : Text) (c : Colours) (g : c k ≡ grey) (r : Ranked defs c)
    (all : (d : Text) → Edge defs k d → c d ≡ black) where
  new_below : (j : Text) → paint k black c j ≡ black → new_rank r.rank r.bound k j < r.bound + 1
  unfolding paint
  new_below j h = ground (arith, r.below j)

  target_black : (j d : Text) → Edge defs j d → paint k black c j ≡ black → c d ≡ black
  unfolding paint
  target_black j d e h = elim (Bool-cases (same j k)) [
    | inl p ↦ all d (subst (λ x. Edge defs x d) (same_eq j k p) e)
    | inr p ↦ r.closed j d e (ground arith)
  ]

  new_falls :
      (j d : Text)
      → Edge defs j d
      → paint k black c j ≡ black
      → new_rank r.rank r.bound k d < new_rank r.rank r.bound k j
  unfolding paint
  new_falls j d e h =
      let b = target_black j d e h in
      let other = apart k d c grey black g b (λ q. cc) in
      elim (Bool-cases (same j k)) [
        | inl p ↦ rw (other, p) (r.below d b)
        | inr p ↦ rw (other, p) (r.falls j d e (ground arith))
      ]

  pub Ranked-black : Ranked defs (paint k black c)
  Ranked-black = record {
    rank = new_rank r.rank r.bound k;
    bound = r.bound + 1;
    below = new_below;
    closed = λ j d e h. repaint_black k d black c g (λ q. cc) (target_black j d e h);
    falls = new_falls;
  }

-- Painting `k` grey, visiting its targets and painting it black leaves the other keys to the visit.
pub Grows-around :
    (k : Text) (before mid : Colours)
    → before k ≡ white
    → Grows (paint k grey before) mid
    → Grows before (paint k black mid)
unfolding paint
Grows-around k before mid w g = record {
  blacks = λ j h.
      rw (apart k j before white black w h (λ q. cc))
        (g.blacks j (rw (apart k j before white black w h (λ q. cc)) h));
  greys = λ j h.
      rw (apart k j before white grey w h (λ q. cc))
        (g.greys j (rw (apart k j before white grey w h (λ q. cc)) h));
  greys_back = λ j h. ground (arith, g.greys_back j);
}

pub stacked_snoc :
    (stack : List Text) (k : Text) (c : Colours)
    → ((j : Text) → c j ≡ grey → contains j stack ≡ true)
    → (j : Text) → paint k grey c j ≡ grey
    → contains j (stack ++ k ∷ []) ≡ true
unfolding paint contains
stacked_snoc stack k c all j h = ground (arith, contains-append j stack (k ∷ []), all j)
