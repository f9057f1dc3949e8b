-- ===== src/Db/Queries.antt =====
-- db/repositories.py: what a query of the audit log returns.
use mathlib.Core.List.Perm
use mathlib.Core.List.{Perm, perm_middle}
use mathlib.Core.Path.{subst}
use account_pool.Base.{
  ℕ, ◌≤◌, String, ◌≡◌, refl, ◌⊎◌, inl, inr, Bool, true, not, Option, none, some, List, [], ◌∷◌,
  ◌++◌, arith, leb, select, Bool-cases, eq_iff, eq_refl, ap, sym, length, zero, suc,
}
use account_pool.Base.Int.{pos}
use account_pool.Domain.Models.{AuditEvent}
use account_pool.Runtime.Errors.{ok}
use account_pool.Runtime.World.{World}
use account_pool.Db.Audit.{
  column_is, insert_newest, newest_first, asked_for, limited, first_events, query_events,
}

-- No event is older than the one after it.
abbrev pub NewestFirst : List AuditEvent → Type 0
NewestFirst [] = Unit {0}
NewestFirst (e ∷ []) = Unit {0}
NewestFirst (e ∷ f ∷ rest) = (f.ts ≤ e.ts) × NewestFirst (f ∷ rest)

insert_newest-perm : (e : AuditEvent) (es : List AuditEvent) → Perm (insert_newest e es) (e ∷ es)
unfolding insert_newest
insert_newest-perm e [] = Perm.refl (e ∷ [])
insert_newest-perm e (f ∷ rest) = elim (Bool-cases (leb f.ts e.ts)) [
  | inl newer ↦ rw newer (Perm.refl (e ∷ f ∷ rest))
  | inr older ↦ rw older (Perm.trans (Perm.cons f (insert_newest-perm e rest)) (Perm.swap e f rest))
]

newest_first-perm : (es : List AuditEvent) → Perm (newest_first es) es
unfolding newest_first
newest_first-perm [] = Perm.refl []
newest_first-perm (e ∷ es) =
    Perm.trans (insert_newest-perm e (newest_first es)) (Perm.cons e (newest_first-perm es))

insert_newest-NewestFirst :
    (e : AuditEvent) (es : List AuditEvent) → NewestFirst es → NewestFirst (insert_newest e es)
unfolding insert_newest
insert_newest-NewestFirst e [] h = tt
insert_newest-NewestFirst e (f ∷ []) h = ground arith
insert_newest-NewestFirst e (f ∷ g ∷ rest) h =
    ground (arith, insert_newest-NewestFirst e (g ∷ rest))

newest_first-NewestFirst : (es : List AuditEvent) → NewestFirst (newest_first es)
unfolding newest_first
newest_first-NewestFirst [] = tt
newest_first-NewestFirst (e ∷ es) =
    insert_newest-NewestFirst e (newest_first es) (newest_first-NewestFirst es)

-- An event has what was asked for.
pub record Matches (account_id action_id verb : Option String) (e : AuditEvent) : Type 0 where
  pub of_account : (a : String) → account_id ≡ some a → e.account_id ≡ some a
  pub of_action : (a : String) → action_id ≡ some a → e.action_id ≡ some a
  pub of_verb : (v : String) → verb ≡ some v → e.verb ≡ v

-- Each event of a list has a property.
abbrev pub Each : (AuditEvent → Type 0) → List AuditEvent → Type 0
Each P [] = Unit {0}
Each P (e ∷ es) = P e × Each P es

column_is_sound :
    (wanted column : Option String) (a : String)
    → column_is wanted column ≡ true
    → wanted ≡ some a
    → column ≡ some a
column_is_sound none column a h e = absurd (ground arith)
column_is_sound (some b) none a h e = absurd (ground arith)
column_is_sound (some b) (some c) a h e = ground (arith, eq_iff c b)

column_is_complete :
    (wanted column : Option String)
    → ((a : String) → wanted ≡ some a → column ≡ some a)
    → column_is wanted column ≡ true
column_is_complete none column h = refl
column_is_complete (some b) none h = let wrong = h b refl in absurd (ground arith)
column_is_complete (some b) (some c) h =
    let same = h b refl in ground (arith, eq_iff c b, eq_refl b)

module _ (account_id action_id verb : Option String) where
  abbrev wanted : AuditEvent → Bool
  wanted = asked_for account_id action_id verb

  wanted-Matches : (e : AuditEvent) → wanted e ≡ true → Matches account_id action_id verb e
  wanted-Matches e h = record {
    of_account = λ a. column_is_sound account_id e.account_id a (ground arith);
    of_action = λ a. column_is_sound action_id e.action_id a (ground arith);
    of_verb = λ v asked.
        let found = column_is_sound verb (some e.verb) v (ground arith) asked in ground arith;
  }

  Matches-wanted : (e : AuditEvent) → Matches account_id action_id verb e → wanted e ≡ true
  Matches-wanted e m =
      let a = column_is_complete account_id e.account_id m.of_account in
      let b = column_is_complete action_id e.action_id m.of_action in
      let c = column_is_complete verb (some e.verb) (λ v asked. ap some (m.of_verb v asked)) in
      ground arith

  abbrev unwanted : AuditEvent → Bool
  unwanted e = not (wanted e)

  select-Matches :
      (es : List AuditEvent) → Each (Matches account_id action_id verb) (select wanted es)
  select-Matches [] = tt
  select-Matches (e ∷ es) = elim (Bool-cases (wanted e)) [
    | inl kept ↦ rw kept (wanted-Matches e kept, select-Matches es)
    | inr left_out ↦ rw left_out (select-Matches es)
  ]

  abbrev Differs : AuditEvent → Type 0
  Differs e = ¬ (Matches account_id action_id verb e)

  select-Differs : (es : List AuditEvent) → Each Differs (select unwanted es)
  select-Differs [] = tt
  select-Differs (e ∷ es) = elim (Bool-cases (wanted e)) [
    | inl kept ↦ rw kept (select-Differs es)
    | inr left_out ↦
        rw left_out
          ((λ m. let there = Matches-wanted e m in absurd (ground arith)), select-Differs es)
  ]

  partition-perm : (es : List AuditEvent) → Perm (select wanted es ++ select unwanted es) es
  partition-perm [] = Perm.refl []
  partition-perm (e ∷ es) = elim (Bool-cases (wanted e)) [
    | inl kept ↦ rw kept (Perm.cons e (partition-perm es))
    | inr left_out ↦ rw left_out (
        Perm.trans (perm_middle (select wanted es) (select unwanted es))
          (Perm.cons e (partition-perm es)))
  ]

module _ (P : AuditEvent → Type 0) where
  insert_newest-Each :
      (e : AuditEvent) (es : List AuditEvent) → P e → Each P es → Each P (insert_newest e es)
  unfolding insert_newest
  insert_newest-Each e [] p h = (p, tt)
  insert_newest-Each e (f ∷ rest) p h = elim (Bool-cases (leb f.ts e.ts)) [
    | inl newer ↦ rw newer (p, h)
    | inr older ↦ rw older (h.0, insert_newest-Each e rest p h.1)
  ]

  newest_first-Each : (es : List AuditEvent) → Each P es → Each P (newest_first es)
  unfolding newest_first
  newest_first-Each [] h = tt
  newest_first-Each (e ∷ es) h =
      insert_newest-Each e (newest_first es) h.0 (newest_first-Each es h.1)

-- The rest behind the first events.
abbrev later_events : ℕ → List AuditEvent → List AuditEvent
later_events zero es = es
later_events (suc n) [] = []
later_events (suc n) (e ∷ es) = later_events n es

first-later : (n : ℕ) (es : List AuditEvent) → first_events n es ++ later_events n es ≡ es
first-later zero es = refl
first-later (suc n) [] = refl
first-later (suc n) (e ∷ es) = ap (λ l. e ∷ l) (first-later n es)

length-first : (n : ℕ) (es : List AuditEvent) → length (first_events n es) ≤ n
length-first zero es = omega arith
length-first (suc n) [] = omega arith
length-first (suc n) (e ∷ es) = omega (arith, length-first n es)

first-full :
    (n : ℕ) (es : List AuditEvent) → (later_events n es ≡ []) ⊎ (length (first_events n es) ≡ n)
first-full zero es = inr refl
first-full (suc n) [] = inl refl
first-full (suc n) (e ∷ es) = elim (first-full n es) [
  | inl over ↦ inl over
  | inr full ↦ inr (ap suc full)
]

-- The log falls into the events found, a rest and others. The first two have what was asked for and
-- stand with the newest first, the others have not; and there is a rest only behind as many as the limit.
pub record Answers (account_id action_id verb : Option String) (limit : ℕ)
    (log found : List AuditEvent) : Type 0 where
  pub rest : List AuditEvent
  pub others : List AuditEvent
  pub whole : Perm ((found ++ rest) ++ others) log
  pub newest : NewestFirst (found ++ rest)
  pub asked : Each (Matches account_id action_id verb) (found ++ rest)
  pub unasked : Each (λ e. ¬ (Matches account_id action_id verb e)) others
  pub within : length found ≤ limit
  pub full : (rest ≡ []) ⊎ (length found ≡ limit)

-- A query of the audit log with a limit that is not negative changes nothing and returns events that the
-- log has: with the account, the action and the verb that were asked for, the newest first, at most as
-- many as the limit, and all of them unless there are more than it; and those that are left out for the
-- limit are no newer.
pub query_events-newest :
    (account_id action_id verb : Option String) (limit : ℕ) (w : World)
    → (found : List AuditEvent) × (query_events account_id action_id verb (pos limit) w
        ≡ (ok found, w))
      × Answers account_id action_id verb limit w.audit found
unfolding query_events limited
query_events-newest account_id action_id verb limit w =
    let picked = select (asked_for account_id action_id verb) w.audit in
    let ordered = newest_first picked in
    let both = sym (first-later limit ordered) in
    (
      first_events limit ordered,
      refl,
      record {
        rest = later_events limit ordered;
        others = select (unwanted account_id action_id verb) w.audit;
        whole =
            subst (λ l. Perm (l ++ select (unwanted account_id action_id verb) w.audit) w.audit)
              both
              (Perm.trans
                (Perm.append_right (select (unwanted account_id action_id verb) w.audit)
                  (newest_first-perm picked))
                (partition-perm account_id action_id verb w.audit));
        newest = subst NewestFirst both (newest_first-NewestFirst picked);
        asked = subst (Each (Matches account_id action_id verb)) both (
            newest_first-Each (Matches account_id action_id verb) picked
              (select-Matches account_id action_id verb w.audit));
        unasked = select-Differs account_id action_id verb w.audit;
        within = length-first limit ordered;
        full = first-full limit ordered;
      },
    )
