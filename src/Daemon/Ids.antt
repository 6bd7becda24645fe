-- ===== src/Daemon/Ids.antt =====
-- The identifiers of managed processes, across launches.
use pm.Daemon.State.{ManagedProcess, Processes, cron_key}
use pm.Daemon.Registry.{scan_existing, find_existing, is_same_app}
use pm.Daemon.Launch.{
  AppStartReq, Daemon, StartResult, Surroundings, namespace_of, new_entry, put_entry, install_entry,
  launch_started, launch_result, launch,
}
use pm.Prelude.{
  ℕ, ◌<◌, ◌≡◌, refl, sym, ap, ◌∙◌, inl, inr, Bool, false, ◌&&◌, Option, none, some, List, [], ◌∷◌,
  arith, Bool-cases, Option-cases, Text, same, same_eq, same_iff, is_empty, dict_keys, get, put,
  get-put, get-remove, Result, ok, err,
}

scan_existing-get :
    (name config_file : Text) (ps : Processes) (ks : List Text) (k : Text) (mp : ManagedProcess)
    → scan_existing name config_file ps ks ≡ some (k, mp)
    → get k ps ≡ some mp
unfolding scan_existing
scan_existing-get name config_file ps [] k mp h = absurd (ground (arith, h))
scan_existing-get name config_file ps (j ∷ ks) k mp h = elim (Option-cases (get j ps)) [
  | inl e ↦ scan_existing-get name config_file ps ks k mp (ground (arith, h, e))
  | inr (held, e) ↦ elim (Bool-cases (is_same_app name config_file held)) [
    | inl m ↦ ground (arith, h, e, m)
    | inr m ↦ scan_existing-get name config_file ps ks k mp (ground (arith, h, e, m))
  ]
]

-- What a launch takes over from is an entry of the map, under the key that it names.
find_existing-get :
    (ns name config_file : Text) (ps : Processes) (k : Text) (mp : ManagedProcess)
    → find_existing ns name config_file ps ≡ some (k, mp)
    → get k ps ≡ some mp
unfolding find_existing
find_existing-get ns name config_file ps k mp h = elim (Option-cases (get (cron_key ns name) ps)) [
  | inl e ↦ scan_existing-get name config_file ps (dict_keys ps) k mp (ground (arith, h, e))
  | inr (held, e) ↦ ground (arith, h, e)
]

-- Identifiers are below the next one, no two entries have the same, and no key is empty.
pub record IdsUnique (d : Daemon) : Type 0 where
  pub below :
      (k : Text) (mp : ManagedProcess) → get k d.processes ≡ some mp → mp.info.id < d.next_id
  pub apart :
      (j k : Text) (a b : ManagedProcess)
      → get j d.processes ≡ some a
      → get k d.processes ≡ some b
      → a.info.id ≡ b.info.id
      → j ≡ k
  pub no_empty : get [] d.processes ≡ none

-- Where an entry of the map after a launch comes from.
data From (d : Daemon) (k : Text) (mp : ManagedProcess) (gone : Text → Bool) (j : Text)
    (a : ManagedProcess) : Type 0 where
  new : j ≡ k → a ≡ mp → From d k mp gone j a
  old : get j d.processes ≡ some a → gone j ≡ false → From d k mp gone j a

module _ (d : Daemon) (u : IdsUnique d) (mp : ManagedProcess) (k : Text) where
  fresh-apart :
      (j i : Text) (a b : ManagedProcess)
      → mp.info.id ≡ d.next_id
      → From d k mp (λ x. same x k) j a
      → From d k mp (λ x. same x k) i b
      → a.info.id ≡ b.info.id
      → j ≡ i
  fresh-apart j i a b n (new p q) (new r s) h = p ∙ sym r
  fresh-apart j i a b n (new p q) (old r s) h =
      absurd (omega (arith, u.below i b r, n, h, ap (λ (x : ManagedProcess). x.info.id) q))
  fresh-apart j i a b n (old p q) (new r s) h =
      absurd (omega (arith, u.below j a p, n, h, ap (λ (x : ManagedProcess). x.info.id) s))
  fresh-apart j i a b n (old p q) (old r s) h = u.apart j i a b p r h

  kept-apart :
      (o : Text) (held : ManagedProcess) (j i : Text) (a b : ManagedProcess)
      → get o d.processes ≡ some held
      → mp.info.id ≡ held.info.id
      → From d k mp (λ x. same x o) j a
      → From d k mp (λ x. same x o) i b
      → a.info.id ≡ b.info.id
      → j ≡ i
  kept-apart o held j i a b g n (new p q) (new r s) h = p ∙ sym r
  kept-apart o held j i a b g n (new p q) (old r s) h = absurd (
      ground (
        arith,
        u.apart i o b held r g (sym h ∙ (ap (λ (x : ManagedProcess). x.info.id) q ∙ n)),
        s,
        same_iff i o,
      ))
  kept-apart o held j i a b g n (old p q) (new r s) h = absurd (
      ground (
        arith,
        u.apart j o a held p g (h ∙ (ap (λ (x : ManagedProcess). x.info.id) s ∙ n)),
        q,
        same_iff j o,
      ))
  kept-apart o held j i a b g n (old p q) (old r s) h = u.apart j i a b p r h

module _ (d : Daemon) (k : Text) (mp : ManagedProcess) (j : Text) (a : ManagedProcess) where
  put-From : get j (put k mp d.processes) ≡ some a → From d k mp (λ x. same x k) j a
  put-From h = elim (Bool-cases (same j k)) [
    | inl e ↦ new (same_eq j k e) (ground (arith, h, e, get-put j k mp d.processes))
    | inr e ↦ old (ground (arith, h, e, get-put j k mp d.processes)) e
  ]

  put_entry-From :
      (o : Text) (held : ManagedProcess)
      → is_empty o ≡ false
      → get j (put_entry k mp (some (o, held)) d.processes) ≡ some a
      → From d k mp (λ x. same x o) j a
  unfolding put_entry
  put_entry-From o held full h = elim (Bool-cases (same o k)) [
    | inl e ↦ elim (put-From (ground (arith, h, e))) [
      | new p q ↦ new p q
      | old p q ↦ old p (ground (arith, q, same_iff o k, same_iff j k, same_iff j o, e))
    ]
    | inr e ↦ elim (Bool-cases (same j o)) [
      | inl f ↦ absurd (ground (arith, h, e, f, full, get-remove j o (put k mp d.processes)))
      | inr f ↦
          elim (put-From (ground (arith, h, e, f, full, get-remove j o (put k mp d.processes)))) [
            | new p q ↦ new p q
            | old p q ↦ old p f
          ]
    ]
  ]

cron_key-full : (ns name : Text) → same [] (cron_key ns name) ≡ false
unfolding cron_key same
cron_key-full [] name = refl
cron_key-full (b ∷ ns) name = refl

get_full :
    (d : Daemon)
    → IdsUnique d
    → (o : Text) (held : ManagedProcess) → get o d.processes ≡ some held
    → is_empty o ≡ false
get_full d u [] held g = absurd (ground (arith, g, u.no_empty))
get_full d u (b ∷ o) held g = refl

module _ (s : Surroundings) (name : Text) (req : AppStartReq) (trigger : Text)
    (result : StartResult) (d : Daemon) (u : IdsUnique d) where
  abbrev this_key : Text
  this_key = cron_key (namespace_of req) name

  abbrev entry_for : Option (Text × ManagedProcess) → ℕ → ManagedProcess
  entry_for found id = new_entry s name req trigger result d.handles id found

  fresh-IdsUnique : IdsUnique (install_entry s name req trigger result none d).1
  unfolding install_entry put_entry new_entry
  fresh-IdsUnique =
      let mp = entry_for none d.next_id in
      record {
        below = λ k a h. elim (put-From d this_key mp k a h) [
          | new p q ↦ omega (arith, ap (λ (x : ManagedProcess). x.info.id) q)
          | old p q ↦ omega (arith, u.below k a p)
        ];
        apart = λ j k a b g h e.
            fresh-apart d u mp this_key j k a b refl (put-From d this_key mp j a g)
              (put-From d this_key mp k b h) e;
        no_empty =
            get-put [] this_key mp d.processes
            ∙ rw (cron_key-full (namespace_of req) name) u.no_empty;
      }

  kept-IdsUnique :
      (o : Text) (held : ManagedProcess)
      → get o d.processes ≡ some held
      → IdsUnique (install_entry s name req trigger result (some (o, held)) d).1
  unfolding install_entry new_entry
  kept-IdsUnique o held g =
      let mp = entry_for (some (o, held)) held.info.id in
      let full = get_full d u o held g in
      record {
        below = λ k a h. elim (put_entry-From d this_key mp k a o held full h) [
          | new p q ↦ omega (arith, u.below o held g, ap (λ (x : ManagedProcess). x.info.id) q)
          | old p q ↦ u.below k a p
        ];
        apart = λ j k a b p q e.
            kept-apart d u mp this_key o held j k a b g refl
              (put_entry-From d this_key mp j a o held full p)
              (put_entry-From d this_key mp k b o held full q) e;
        no_empty = none_empty (get [] (put_entry this_key mp (some (o, held)) d.processes)) refl;
      }
    where
      none_empty :
          (x : Option ManagedProcess)
          → get [] (
              put_entry this_key
                (entry_for (some (o, held)) held.info.id)
                (some (o, held))
                d.processes)
            ≡ x
          → x ≡ none
      none_empty none h = refl
      none_empty (some a) h =
          elim (put_entry-From d this_key (entry_for (some (o, held)) held.info.id) [] a o held
            (get_full d u o held g) h) [
              | new p q ↦
                  absurd
                    (ground (arith, p, same_iff [] this_key, cron_key-full (namespace_of req) name))
              | old p q ↦ absurd (ground (arith, p, u.no_empty))
            ]

  launch_started-IdsUnique :
      (found : Option (Text × ManagedProcess))
      → find_existing (namespace_of req) name req.app.config_file d.processes ≡ found
      → IdsUnique (launch_started s name req trigger result found d).1
  unfolding launch_started
  launch_started-IdsUnique none e = fresh-IdsUnique
  launch_started-IdsUnique (some (k, mp)) e =
      elim (Bool-cases (mp.is_paused && req.cron_triggered)) [
        | inl b ↦ rw b u
        | inr b ↦ rw b (
            kept-IdsUnique k mp
              (find_existing-get (namespace_of req) name req.app.config_file d.processes k mp e))
      ]

-- A launch, however it goes, keeps that every identifier is below the next one, that no two managed
-- processes have the same, and that no key is empty.
pub launch-IdsUnique :
    (s : Surroundings) (name : Text) (req : AppStartReq) (trigger : Text) (d : Daemon)
    → IdsUnique d
    → IdsUnique (launch s name req trigger d).1
unfolding launch
launch-IdsUnique s name req trigger d u = started s.start
  where
    started : (r : Result Text StartResult) → IdsUnique (launch_result s name req trigger r d).1
    started (err m) = unfold launch_result in u
    started (ok result) =
        unfold launch_result in
        launch_started-IdsUnique s name req trigger result d u
          (find_existing (namespace_of req) name req.app.config_file d.processes) refl
