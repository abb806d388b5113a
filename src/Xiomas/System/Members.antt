-- ===== src/Xiomas/System/Members.antt =====
-- The receivers of the gateway: each is quiet, or at the end of a whole packet, and stays so when the
-- export client or another receiver is called.
use cosmid.Base.{
  ℕ, ◌<◌, ◌+◌, ◌≡◌, ◌≢◌, refl, sym, ap, subst, ◌∙◌, arith, inl, inr, Bool-cases, true, false,
  Option, none, some, List, [], ◌∷◌, ◌++◌, ◌==◌,
}
use cosmid.Xiomas.Export.{TcpExport, Effects}
use cosmid.Xiomas.Export.Clients.{Among, AllAmong}
use cosmid.Xiomas.Receiver.Fields.{Receiver, acknowledged}
use cosmid.Xiomas.Receiver.Stall.{IsStuck}
use cosmid.Xiomas.Receiver.Settled.{IsSettled, acknowledged-id, acknowledged-other}
use cosmid.Xiomas.System.{find, remove, tell_all, update, tell_each}

-- settled with respect to the export client `e`
abbrev pub IsMember : TcpExport → ℕ → Receiver → Type 0
IsMember e accepted r = (r.id < accepted) × IsSettled (record r { exp = e })

abbrev pub Members : TcpExport → ℕ → List Receiver → Type 0
Members e accepted [] = Unit
Members e accepted (r ∷ rs) = IsMember e accepted r × Members e accepted rs

acknowledged-IsStuck : (r : Receiver) (told : Option ℕ) → IsStuck r → IsStuck (acknowledged r told)
unfolding acknowledged
acknowledged-IsStuck r told stuck = record {
  in_packet = ground (arith, stuck.in_packet);
  complete = ground (arith, stuck.complete);
}

tell_all-IsStuck :
    (effects : List Effects) (r : Receiver) → IsStuck r → IsStuck (tell_all effects r)
unfolding tell_all
tell_all-IsStuck [] r stuck = stuck
tell_all-IsStuck (x ∷ xs) r stuck =
    tell_all-IsStuck xs (acknowledged r x.acked) (acknowledged-IsStuck r x.acked stuck)

tell_all-id : (effects : List Effects) (r : Receiver) → (tell_all effects r).id ≡ r.id
unfolding tell_all
tell_all-id [] r = refl
tell_all-id (x ∷ xs) r = tell_all-id xs (acknowledged r x.acked) ∙ acknowledged-id r x.acked

other_than : {c d x y : Option ℕ} → Among c d x → c ≢ y → d ≢ y → none ≢ y → x ≢ y
other_than (inl e) c d n h = n (sym e ∙ h)
other_than (inr (inl e)) c d n h = c (sym e ∙ h)
other_than (inr (inr e)) c d n h = d (sym e ∙ h)

pub none-some : (id : ℕ) → none ≢ some id
none-some id h = cc

tell_all-other :
    (c d : Option ℕ) (effects : List Effects) (r : Receiver)
    → AllAmong c d effects
    → c ≢ some r.id
    → d ≢ some r.id
    → tell_all effects r ≡ r
unfolding tell_all
tell_all-other c d [] r among other other' = refl
tell_all-other c d (x ∷ xs) r (here, among) other other' =
    ap (λ r. tell_all xs r)
      (acknowledged-other r x.acked (other_than here other other' (none-some r.id)))
    ∙ tell_all-other c d xs r among other other'

-- A call in which only the client so far or another receiver may be told leaves a member settled.
tell_all-IsMember :
    (e e' : TcpExport) (d : Option ℕ) (accepted : ℕ) (effects : List Effects) (r : Receiver)
    → Among e.client d e'.client
    → AllAmong e.client d effects
    → d ≢ some r.id
    → IsMember e accepted r
    → IsMember e' accepted (tell_all effects r)
tell_all-IsMember e e' d accepted effects r client among other (known, inl (quiet, off)) =
    subst (λ r. IsMember e' accepted r)
      (sym (tell_all-other e.client d effects r among quiet other))
      (known, inl (other_than client quiet other (none-some r.id), off))
tell_all-IsMember e e' d accepted effects r client among other (known, inr stuck) = (
  rw (tell_all-id effects r) known,
  inr (
      let still =
        tell_all-IsStuck effects r
          (record { in_packet = stuck.in_packet; complete = stuck.complete }) in
      record { in_packet = still.in_packet; complete = still.complete }),
)

pub tell_each-Members :
    (e e' : TcpExport) (accepted : ℕ) (effects : List Effects) (rs : List Receiver)
    → Among e.client none e'.client
    → AllAmong e.client none effects
    → Members e accepted rs
    → Members e' accepted (tell_each effects rs)
unfolding tell_each
tell_each-Members e e' accepted effects [] client among members = tt
tell_each-Members e e' accepted effects (r ∷ rs) client among (member, members) = (
  tell_all-IsMember e e' none accepted effects r client among (none-some r.id) member,
  tell_each-Members e e' accepted effects rs client among members,
)

some_other : (a b : ℕ) → (a == b) ≡ false → some b ≢ some a
some_other a b ne h = ground (arith, ne, h)

pub update-Members :
    (e : TcpExport) (accepted : ℕ) (r' : Receiver) (effects : List Effects) (rs : List Receiver)
    → Among e.client (some r'.id) r'.exp.client
    → AllAmong e.client (some r'.id) effects
    → IsMember r'.exp accepted r'
    → Members e accepted rs
    → Members r'.exp accepted (update r' effects rs)
unfolding update
update-Members e accepted r' effects [] client among member members = tt
update-Members e accepted r' effects (r ∷ rs) client among member (first, members) = (
  elim (Bool-cases (r.id == r'.id)) [
    | inl same ↦ rw same member
    | inr other ↦ rw other (
        tell_all-IsMember e r'.exp (some r'.id) accepted effects r client among
          (some_other r.id r'.id other) first)
  ],
  update-Members e accepted r' effects rs client among member members,
)

pub remove-Members :
    (e : TcpExport) (accepted id : ℕ) (rs : List Receiver)
    → Members e accepted rs
    → Members e accepted (remove id rs)
unfolding remove
remove-Members e accepted id [] members = tt
remove-Members e accepted id (r ∷ rs) (first, members) = elim (Bool-cases (r.id == id)) [
  | inl gone ↦ rw gone (remove-Members e accepted id rs members)
  | inr kept ↦ rw kept (first, remove-Members e accepted id rs members)
]

find-first :
    (id : ℕ) (x : Receiver) (xs : List Receiver) → (x.id == id) ≡ true → find id (x ∷ xs) ≡ some x
unfolding find
find-first id x xs here = rw here refl

find-rest :
    (id : ℕ) (x : Receiver) (xs : List Receiver)
    → (x.id == id) ≡ false
    → find id (x ∷ xs) ≡ find id xs
unfolding find
find-rest id x xs further = rw further refl

find-nil : (id : ℕ) (r : Receiver) → find id [] ≢ some r
unfolding find
find-nil id r found = cc

some_injective : (x y : Receiver) → some x ≡ some y → x ≡ y
some_injective x y e = cc

pub find-id : (id : ℕ) (rs : List Receiver) (r : Receiver) → find id rs ≡ some r → r.id ≡ id
find-id id [] r found = absurd (find-nil id r found)
find-id id (x ∷ xs) r found = elim (Bool-cases (x.id == id)) [
  | inl here ↦
      sym (ap (λ (r : Receiver). r.id) (some_injective x r (sym (find-first id x xs here) ∙ found)))
      ∙ ground (arith, here)
  | inr further ↦ find-id id xs r (sym (find-rest id x xs further) ∙ found)
]

-- A receiver that is found is found when the export client has told whom it tells.
pub find-tell_each :
    (id : ℕ) (effects : List Effects) (rs : List Receiver) (r : Receiver)
    → find id rs ≡ some r
    → find id (tell_each effects rs) ≡ some (tell_all effects r)
unfolding tell_each
find-tell_each id effects [] r found = absurd (find-nil id r found)
find-tell_each id effects (x ∷ xs) r found = elim (Bool-cases (x.id == id)) [
  | inl here ↦
      find-first id (tell_all effects x) (tell_each effects xs) (rw (tell_all-id effects x) here)
      ∙ ap (λ (r : Receiver). some (tell_all effects r))
          (some_injective x r (sym (find-first id x xs here) ∙ found))
  | inr further ↦
      find-rest id (tell_all effects x) (tell_each effects xs) (rw (tell_all-id effects x) further)
      ∙ find-tell_each id effects xs r (sym (find-rest id x xs further) ∙ found)
]

pub find-IsMember :
    (e : TcpExport) (accepted id : ℕ) (rs : List Receiver) (r : Receiver)
    → Members e accepted rs
    → find id rs ≡ some r
    → IsMember e accepted r
find-IsMember e accepted id [] r members found = absurd (find-nil id r found)
find-IsMember e accepted id (x ∷ xs) r (first, members) found = elim (Bool-cases (x.id == id)) [
  | inl here ↦
      subst (λ (r : Receiver). IsMember e accepted r)
        (some_injective x r (sym (find-first id x xs here) ∙ found)) first
  | inr further ↦ find-IsMember e accepted id xs r members (sym (find-rest id x xs further) ∙ found)
]

-- A new connection.
pub append-Members :
    (e : TcpExport) (accepted : ℕ) (rs : List Receiver) (r : Receiver)
    → Members e accepted rs
    → IsMember e (accepted + 1) r
    → Members e (accepted + 1) (rs ++ (r ∷ []))
append-Members e accepted [] r members new = (new, tt)
append-Members e accepted (x ∷ xs) r ((known, settled), members) new =
    ((omega arith, settled), append-Members e accepted xs r members new)
