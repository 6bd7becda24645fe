-- ===== src/Workflow/Search/Invariant.antt =====
-- What one visit of the depth-first search keeps and establishes.
use pm.Workflow.Stage.{Stage}
use pm.Workflow.Config.{Defs, keys}
use pm.Workflow.Graph.{target}
use pm.Workflow.Search.{
  Colour, white, grey, black, Colours, paint, Visit, done, cycle, out_of_fuel, and_then, enter,
  follow, visit_stage, visit_stages,
}
use pm.Workflow.Search.Walks.{Calls, here, there, Edge, Leads, IsCycle, render_cycle-IsCycle}
use mathlib.Core.Option.{some-injective}
use pm.Prelude.{
  ℕ, ◌+◌, ◌≤◌, ◌<◌, ◌≡◌, refl, ap, subst, inl, inr, true, Option, none, some, List, [], ◌∷◌, arith,
  Bool-cases, Text, same, same_eq, same_iff, contains,
}

-- A visit keeps black and grey keys as they are, and paints no new key grey for good.
pub record Grows (before after : Colours) : Type 0 where
  pub blacks : (j : Text) → before j ≡ black → after j ≡ black
  pub greys : (j : Text) → before j ≡ grey → after j ≡ grey
  pub greys_back : (j : Text) → after j ≡ grey → before j ≡ grey

pub Grows-refl : (c : Colours) → Grows c c
Grows-refl c = record { blacks = λ j h. h; greys = λ j h. h; greys_back = λ j h. h }

pub Grows-trans : {a b c : Colours} → Grows a b → Grows b c → Grows a c
Grows-trans p q = record {
  blacks = λ j h. q.blacks j (p.blacks j h);
  greys = λ j h. q.greys j (p.greys j h);
  greys_back = λ j h. p.greys_back j (q.greys_back j h);
}

-- The black keys are ranked below the bound, each above its targets, which are black too: the
-- rank is the moment at which the search left the key.
pub record Ranked (defs : Defs) (colours : Colours) : Type 0 where
  pub rank : Text → ℕ
  pub bound : ℕ
  pub below : (j : Text) → colours j ≡ black → rank j < bound
  pub closed : (j c : Text) → Edge defs j c → colours j ≡ black → colours c ≡ black
  pub falls : (j c : Text) → Edge defs j c → colours j ≡ black → rank c < rank j

-- How many of the listed keys are white.
abbrev pub one_if_white : Colour → ℕ
one_if_white white = 1
one_if_white _ = 0

unfoldable pub whites : List Text → Colours → ℕ
whites [] colours = 0
whites (k ∷ ks) colours = one_if_white (colours k) + whites ks colours

one_if_white_mono :
    (a b : Colour)
    → (a ≡ black → b ≡ black)
    → (a ≡ grey → b ≡ grey)
    → one_if_white b ≤ one_if_white a
one_if_white_mono a b h g = ground arith

pub whites_mono : (ks : List Text) (a b : Colours) → Grows a b → whites ks b ≤ whites ks a
unfolding whites
whites_mono [] a b g = omega arith
whites_mono (k ∷ ks) a b g =
    omega (arith, whites_mono ks a b g, one_if_white_mono (a k) (b k) (g.blacks k) (g.greys k))

whites-paint_le :
    (ks : List Text) (k : Text) (c : Colours) → whites ks (paint k grey c) ≤ whites ks c
unfolding whites paint
whites-paint_le [] k c = omega arith
whites-paint_le (j ∷ ks) k c = ground (arith, whites-paint_le ks k c)

pub whites-paint :
    (ks : List Text) (k : Text) (c : Colours)
    → contains k ks ≡ true
    → c k ≡ white
    → whites ks (paint k grey c) < whites ks c
unfolding whites paint contains
whites-paint [] k c h w = ground arith
whites-paint (j ∷ ks) k c h w = elim (Bool-cases (same k j)) [
  | inl e ↦
      let p : k ≡ j = same_eq k j e in
      ground (arith, whites-paint_le ks k c, p, ap c p, same_iff j k)
  | inr e ↦ ground (arith, whites-paint ks k c, same_iff j k, same_iff k j)
]

-- The postcondition of a visit: `P` of the colours if it ends well, a real cycle if it reports
-- one, and it never runs out of fuel.
abbrev pub Ensures : Defs → (Colours → Type 0) → Visit → Type 0
Ensures defs P (done c) = P c
Ensures defs P (cycle p) = IsCycle defs p
Ensures defs P out_of_fuel = ⊥

pub Ensures-and_then :
    (defs : Defs) (P Q : Colours → Type 0) (v : Visit) (f : Colours → Visit)
    → Ensures defs P v
    → ((c : Colours) → P c → Ensures defs Q (f c))
    → Ensures defs Q (and_then v f)
Ensures-and_then defs P Q (done c) f h k = k c h
Ensures-and_then defs P Q (cycle p) f h k = h
Ensures-and_then defs P Q out_of_fuel f h k = absurd h

-- What a visit with `stack` below it may rely on.
pub record Ready (defs : Defs) (fuel : ℕ) (stack : List Text) (colours : Colours) : Type 0 where
  pub ranked : Ranked defs colours
  pub stacked : (j : Text) → colours j ≡ grey → contains j stack ≡ true
  pub fuelled : whites (keys defs) colours ≤ fuel

-- What it establishes, with `R` for the keys that it went through.
pub record Finished (defs : Defs) (R : Colours → Type 0) (before after : Colours) : Type 0 where
  pub ranked : Ranked defs after
  pub grows : Grows before after
  pub reached : R after

pub Ready-Finished :
    (defs : Defs) (fuel : ℕ) (stack : List Text) (R : Colours → Type 0) (before after : Colours)
    → Ready defs fuel stack before
    → Finished defs R before after
    → Ready defs fuel stack after
Ready-Finished defs fuel stack R before after r f = record {
  ranked = f.ranked;
  stacked = λ j h. r.stacked j (f.grows.greys_back j h);
  fuelled = omega (arith, r.fuelled, whites_mono (keys defs) before after f.grows);
}

-- The contract of the visit of one white key.
abbrev pub Visits : Defs → ℕ → List Text → (Text → Colours → Visit) → Type 0
Visits defs fuel stack v =
    (k : Text) (colours : Colours)
    → Ready defs fuel stack colours
    → Leads defs stack k
    → contains k (keys defs) ≡ true
    → colours k ≡ white
    → Ensures defs (Finished defs (λ after. after k ≡ black) colours) (v k colours)

pub Ensures-mono :
    (defs : Defs) (P Q : Colours → Type 0) (v : Visit)
    → ((c : Colours) → P c → Q c)
    → Ensures defs P v
    → Ensures defs Q v
Ensures-mono defs P Q (done c) f h = f c h
Ensures-mono defs P Q (cycle p) f h = h
Ensures-mono defs P Q out_of_fuel f h = h

no-Calls : {defs : Defs} {c : Text} → ¬ Calls defs c []
no-Calls q = elim q [ ]

Calls-black :
    {defs : Defs} (s : Stage) (ss : List Stage) (mid after : Colours)
    → ((c : Text) → target defs s ≡ some c → mid c ≡ black)
    → Grows mid after
    → ((c : Text) → Calls defs c ss → after c ≡ black)
    → (c : Text) → Calls defs c (s ∷ ss)
    → after c ≡ black
Calls-black s ss mid after first g rest c (here q) = g.blacks c (first c q)
Calls-black s ss mid after first g rest c (there q) = rest c q

module _ (defs : Defs) (fuel : ℕ) (stack : List Text) (v : Text → Colours → Visit)
    (visits : Visits defs fuel stack v)
    (known : (s : Stage) (c : Text) → target defs s ≡ some c → contains c (keys defs) ≡ true) where
  enter-Ensures :
      (s : Stage) (c : Text) (colours : Colours) (shade : Colour)
      → target defs s ≡ some c
      → colours c ≡ shade
      → Ready defs fuel stack colours
      → Leads defs stack c
      → Ensures defs
          (Finished defs (λ after. after c ≡ black) colours)
          (enter v stack c colours shade)
  unfolding enter
  enter-Ensures s c colours grey t e r l = render_cycle-IsCycle defs stack c l (r.stacked c e)
  enter-Ensures s c colours white t e r l = visits c colours r l (known s c t) e
  enter-Ensures s c colours black t e r l = record {
    ranked = r.ranked;
    grows = Grows-refl colours;
    reached = e;
  }

  abbrev Blackens : Option Text → Colours → Type 0
  Blackens t after = (c : Text) → t ≡ some c → after c ≡ black

  follow-Ensures :
      (s : Stage) (colours : Colours) (t : Option Text)
      → target defs s ≡ t
      → Ready defs fuel stack colours
      → ((c : Text) → t ≡ some c → Leads defs stack c)
      → Ensures defs (Finished defs (Blackens t) colours) (follow v stack colours t)
  unfolding follow
  follow-Ensures s colours none e r l = record {
    ranked = r.ranked;
    grows = Grows-refl colours;
    reached = λ c q. cc;
  }
  follow-Ensures s colours (some c) e r l =
      Ensures-mono defs _ _ (enter v stack c colours (colours c))
        (λ after f. record {
          ranked = f.ranked;
          grows = f.grows;
          reached = λ d q. subst (λ x. after x ≡ black) (some-injective c d q) f.reached;
        })
        (enter-Ensures s c colours (colours c) e refl r (l c refl))

  -- The loop over a key's stages: it goes on from what each stage established.
  pub visit_stages-Ensures :
      (ss : List Stage) (colours : Colours)
      → Ready defs fuel stack colours
      → ((c : Text) → Calls defs c ss → Leads defs stack c)
      → Ensures defs
          (Finished defs (λ after. (c : Text) → Calls defs c ss → after c ≡ black) colours)
          (visit_stages v defs stack ss colours)
  unfolding visit_stages visit_stage
  visit_stages-Ensures [] colours r l = record {
    ranked = r.ranked;
    grows = Grows-refl colours;
    reached = λ c q. absurd (no-Calls q);
  }
  visit_stages-Ensures (s ∷ ss) colours r l =
      Ensures-and_then defs _ _ (visit_stage v defs stack s colours) (visit_stages v defs stack ss)
        (follow-Ensures s colours (target defs s) refl r (λ c q. l c (here q)))
        (λ mid f.
          Ensures-mono defs _ _ (visit_stages v defs stack ss mid)
            (λ after g. record {
              ranked = g.ranked;
              grows = Grows-trans f.grows g.grows;
              reached = λ c q. Calls-black s ss mid after f.reached g.grows g.reached c q;
            })
            (visit_stages-Ensures ss mid (Ready-Finished defs fuel stack _ colours mid r f)
              (λ c q. l c (there q))))
