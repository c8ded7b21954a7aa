-- ===== src/Ops/Alerts/Life.antt =====
-- ops/alerts.py, `raise_or_clear`: how many alerts of a rule are open.
use kpcl_hardware.Common.{
  ℕ, ◌+◌, ◌≤◌, ◌<◌, ◌≡◌, refl, sym, ap, Bool, true, false, ◌==◌, ==_iff, Bool-cases, if_elim, none,
  List, [], ◌∷◌, ◌++◌, if◌then◌else◌, keep_if, arith, inl, inr, In, here, there,
}
use kpcl_hardware.Ops.Alerts.{
  Rule, Alert, Change, is_open, is_open_for, clear, clear_all, raise_or_clear,
}

-- How many alerts of a rule are open.
unfoldable pub count_open : ℕ → List Alert → ℕ
unfolding is_open_for
count_open rule_id [] = 0
count_open rule_id (a ∷ rest) = (if is_open_for rule_id a then 1 else 0) + count_open rule_id rest

clear-fewer :
    (now id rule_id : ℕ) (a : Alert)
    → (if is_open_for rule_id (clear now id a) then 1 else 0)
      ≤ (if is_open_for rule_id a then 1 else 0)
unfolding clear is_open_for is_open
clear-fewer now id rule_id a =
    if_elim
      (λ (b : Alert).
        (if is_open_for rule_id b then 1 else 0) ≤ (if is_open_for rule_id a then 1 else 0))
      (a.id == id) (λ e. omega arith) (λ e. omega arith)

clear_all-fewer :
    (now id rule_id : ℕ) (alerts : List Alert)
    → count_open rule_id (clear_all now id alerts) ≤ count_open rule_id alerts
unfolding clear_all count_open
clear_all-fewer now id rule_id [] = omega arith
clear_all-fewer now id rule_id (a ∷ rest) =
    let f = clear-fewer now id rule_id a in
    let ih = clear_all-fewer now id rule_id rest in omega arith

clear_closed :
    (now rule_id : ℕ) (a x : Alert) → a ≡ x → is_open_for rule_id (clear now a.id x) ≡ false
unfolding clear is_open_for is_open
clear_closed now rule_id a x e =
    let same : (x.id == a.id) ≡ true = (==_iff x.id a.id).1 (ap (λ (y : Alert). y.id) (sym e)) in
    rw same refl

-- Clearing an open alert leaves fewer open.
clear_all-less :
    (now rule_id : ℕ) (a : Alert) {alerts : List Alert}
    → is_open_for rule_id a ≡ true
    → In a alerts
    → count_open rule_id (clear_all now a.id alerts) < count_open rule_id alerts
unfolding clear_all count_open
clear_all-less now rule_id a o (here {x = x} {xs = xs} e) =
    let f = clear_all-fewer now a.id rule_id xs in
    let closed = clear_closed now rule_id a x e in
    let was : is_open_for rule_id x ≡ true = rw (← e) o in rw (closed, was) (omega arith)
clear_all-less now rule_id a o (there {x = x} {xs = xs} k) =
    let f = clear-fewer now a.id rule_id x in
    let ih = clear_all-less now rule_id a o k in omega arith

-- The first open alert of a rule.
data FirstOpen (rule_id : ℕ) (alerts : List Alert) : Type 0 where
  nothing :
      keep_if (is_open_for rule_id) alerts ≡ []
      → count_open rule_id alerts ≡ 0
      → FirstOpen rule_id alerts
  one :
      (a : Alert) (rest : List Alert)
      → keep_if (is_open_for rule_id) alerts ≡ a ∷ rest
      → is_open_for rule_id a ≡ true
      → In a alerts
      → FirstOpen rule_id alerts

first_open : (rule_id : ℕ) (alerts : List Alert) → FirstOpen rule_id alerts
unfolding count_open
first_open rule_id [] = nothing refl refl
first_open rule_id (a ∷ rest) = elim (Bool-cases (is_open_for rule_id a)) [
  | inl e ↦ one a (keep_if (is_open_for rule_id) rest) (rw e refl) e (here refl)
  | inr e ↦ next e (first_open rule_id rest)
]
  where
    next : is_open_for rule_id a ≡ false → FirstOpen rule_id rest → FirstOpen rule_id (a ∷ rest)
    next e (nothing k z) = nothing (rw e k) (rw (e, z) (omega arith))
    next e (one b more k o l) = one b more (rw e k) o (there l)

count_open-append :
    (rule_id : ℕ) (alerts : List Alert) (a : Alert)
    → count_open rule_id (alerts ++ a ∷ [])
      ≡ count_open rule_id alerts + (if is_open_for rule_id a then 1 else 0)
unfolding count_open
count_open-append rule_id [] a = omega arith
count_open-append rule_id (b ∷ rest) a = let ih = count_open-append rule_id rest a in omega arith

-- No rule has two open alerts.
abbrev pub OneOpen : List Alert → Type 0
OneOpen alerts = (rule_id : ℕ) → count_open rule_id alerts ≤ 1

-- After `raise_or_clear`: the rule has an open alert just if it fires, and no rule has two.
record Settled (rule_id : ℕ) (firing : Bool) (r : (ℕ × List Alert) × Change) : Type 0 where
  this_rule : count_open rule_id r.0.1 ≡ (if firing then 1 else 0)
  one : OneOpen r.0.1

raised-one :
    (now next : ℕ) (rule : Rule) (alerts : List Alert)
    → count_open rule.id alerts ≡ 0
    → OneOpen alerts
    → Settled rule.id true (
      (
        next + 1,
        alerts ++ record { id = next; rule_id = rule.id; raised_at = now; cleared_at = none } ∷ [],
      ),
      Change.raised,
    )
unfolding is_open_for is_open
raised-one now next rule alerts z h = record {
  this_rule =
      let c =
        count_open-append rule.id alerts
          (record { id = next; rule_id = rule.id; raised_at = now; cleared_at = none }) in
      let same : (rule.id == rule.id) ≡ true = (==_iff rule.id rule.id).1 refl in
      rw (c, same, z) refl;
  one = λ j.
      let c =
        count_open-append j alerts
          (record { id = next; rule_id = rule.id; raised_at = now; cleared_at = none }) in
      let hj = h j in
      rw c (elim (Bool-cases (rule.id == j)) [
        | inl e ↦
            let same : rule.id ≡ j = (==_iff rule.id j).0 e in
            let zj : count_open j alerts ≡ 0 = rw (← same) z in rw (zj, e) (omega arith)
        | inr e ↦ rw e (omega arith)
      ]);
}

raise_or_clear-Settled :
    (now next : ℕ) (rule : Rule) (firing : Bool) (alerts : List Alert)
    → OneOpen alerts
    → Settled rule.id firing (raise_or_clear now rule firing (next, alerts))
unfolding raise_or_clear
raise_or_clear-Settled now next rule firing alerts h = by_open firing (first_open rule.id alerts)
  where
    by_open :
        (firing : Bool)
        → FirstOpen rule.id alerts
        → Settled rule.id firing (raise_or_clear now rule firing (next, alerts))
    by_open true (nothing k z) = rw (k, raise_or_clear) (raised-one now next rule alerts z h)
    by_open false (nothing k z) = rw (k, raise_or_clear) (record { this_rule = z; one = h })
    by_open true (one a rest k o l) =
        let less = clear_all-less now rule.id a o l in
        let most = h rule.id in rw (k, raise_or_clear) (record { this_rule = omega arith; one = h })
    by_open false (one a rest k o l) =
        let less = clear_all-less now rule.id a o l in
        let most = h rule.id in
        rw (k, raise_or_clear)
          (record {
            this_rule = omega arith;
            one = λ j. let f = clear_all-fewer now a.id j alerts in let hj = h j in omega arith;
          })

-- As long as no rule has two open alerts, `raise_or_clear` leaves the rule with one open alert if it
-- fires and with none if it does not, and still no rule has two.
pub raise_or_clear-OneOpen :
    (now next : ℕ) (rule : Rule) (firing : Bool) (alerts : List Alert)
    → OneOpen alerts
    → (count_open rule.id (raise_or_clear now rule firing (next, alerts)).0.1
        ≡ (if firing then 1 else 0))
      × OneOpen (raise_or_clear now rule firing (next, alerts)).0.1
raise_or_clear-OneOpen now next rule firing alerts h =
    let s = raise_or_clear-Settled now next rule firing alerts h in (s.this_rule, s.one)
