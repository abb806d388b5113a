-- ===== src/Xiomas/Receiver/Settled.antt =====
-- A receiver that nothing waits for, or that has a whole packet behind it; and what a pass that takes
-- bytes makes of the one.
use cosmid.Base.{
  ℕ, ◌-◌, ◌≡◌, ◌≢◌, ◌⊎◌, inl, inr, refl, sym, ap, subst, ◌∙◌, arith, Bool-cases, false, Option,
  none, some, List, [], ◌∷◌, ◌++◌, ◌==◌, if◌then◌else◌,
}
use cosmid.Xiomas.Export.{TcpExport, Effects, request_ack}
use cosmid.Xiomas.Export.Drain.{Tells}
use cosmid.Xiomas.Export.Clients.{IsTame, request_ack-IsTame}
use cosmid.Xiomas.Receiver.Fields.{
  Output, reported, logged, sent, exported, Receiver, acknowledged, advance,
}
use cosmid.Xiomas.Receiver.Stall.{IsStuck}

-- what the export queue did, in order
abbrev pub effects_of : List Output → List Effects
effects_of [] = []
effects_of (reported _ ∷ out) = effects_of out
effects_of (sent _ ∷ out) = effects_of out
effects_of (exported effects ∷ out) = effects ∷ effects_of out
effects_of (logged _ _ ∷ out) = effects_of out

pub effects_of-append :
    (xs ys : List Output) → effects_of (xs ++ ys) ≡ effects_of xs ++ effects_of ys
effects_of-append [] ys = refl
effects_of-append (reported _ ∷ xs) ys = effects_of-append xs ys
effects_of-append (sent _ ∷ xs) ys = effects_of-append xs ys
effects_of-append (exported effects ∷ xs) ys = ap (λ l. effects ∷ l) (effects_of-append xs ys)
effects_of-append (logged _ _ ∷ xs) ys = effects_of-append xs ys

-- It is not the one to be told, and its timer does not run.
abbrev pub IsQuiet : Receiver → Type 0
IsQuiet r = (r.exp.client ≢ some r.id) × (r.waits_for_timeout ≡ false)

abbrev pub IsSettled : Receiver → Type 0
IsSettled r = IsQuiet r ⊎ IsStuck r

-- `r` behind the `n` bytes it takes: at the end of its packet it asks to be told
unfoldable pub taken : Receiver → ℕ → Receiver
unfolding advance
taken r n =
    let left = r.bytes_remaining_in_packet - n in
    let r' : Receiver = record (advance r n) { bytes_remaining_in_packet = left } in
    if left == 0 then record r' { exp = request_ack r'.exp r'.id } else r'

taken-last :
    (r : Receiver) (n : ℕ)
    → r.bytes_remaining_in_packet - n ≡ 0
    → ((taken r n).exp ≡ request_ack r.exp r.id) × ((taken r n).bytes_remaining_in_packet ≡ 0)
unfolding taken
taken-last r n done = rw done (refl, refl)

taken-more :
    (r : Receiver) (n : ℕ)
    → (r.bytes_remaining_in_packet - n == 0) ≡ false
    → ((taken r n).exp ≡ r.exp)
      × ((taken r n).id ≡ r.id)
      × ((taken r n).waits_for_timeout ≡ r.waits_for_timeout)
unfolding taken
taken-more r n more = rw more (refl, refl, refl)

pub acknowledged-id : (r : Receiver) (told : Option ℕ) → (acknowledged r told).id ≡ r.id
unfolding acknowledged
acknowledged-id r told = ground arith

acknowledged-exp : (r : Receiver) (told : Option ℕ) → (acknowledged r told).exp ≡ r.exp
unfolding acknowledged
acknowledged-exp r told = ground arith

pub acknowledged-other :
    (r : Receiver) (told : Option ℕ) → told ≢ some r.id → acknowledged r told ≡ r
unfolding acknowledged
acknowledged-other r none other = refl
acknowledged-other r (some id) other = ground (arith, other)

taken-IsTame :
    {c d : Option ℕ} {max : ℕ} (r : Receiver) (n : ℕ) (effects : List Effects)
    → d ≡ some r.id
    → IsTame c d max r.exp effects
    → IsTame c d max (taken r n).exp effects
taken-IsTame {c} {d} {max} r n effects e tame =
    elim (Bool-cases (r.bytes_remaining_in_packet - n == 0)) [
      | inl done ↦
          subst (λ e. IsTame c d max e effects) (sym (taken-last r n (ground (arith, done))).0)
            (request_ack-IsTame r.id effects e tame)
      | inr more ↦ subst (λ e. IsTame c d max e effects) (sym (taken-more r n more).0) tame
    ]

taken-IsQuiet :
    (r : Receiver) (n : ℕ)
    → IsQuiet r
    → IsQuiet (taken r n) ⊎ ((taken r n).bytes_remaining_in_packet ≡ 0)
taken-IsQuiet r n (other, off) = elim (Bool-cases (r.bytes_remaining_in_packet - n == 0)) [
  | inl done ↦ inr (taken-last r n (ground (arith, done))).1
  | inr more ↦
      let (exp, id, waits) = taken-more r n more in
      inl ((λ h. other (sym (ap (λ e. e.client) exp) ∙ h ∙ ap some id)), waits ∙ off)
]

not_told :
    (r : Receiver) (e : TcpExport) (out : Effects)
    → IsQuiet r
    → Tells r.exp e out
    → (e.client ≢ some r.id) × (out.acked ≢ some r.id)
not_told r e out (other, _) (inl (kept, silent)) = ((λ h. other (sym kept ∙ h)), (λ h. cc))
not_told r e out (other, _) (inr (forgotten, told)) = ((λ h. cc), (λ h. other (sym told ∙ h)))

-- the receiver that `transfer` leaves, with the export client `e` and the receiver `told` that was
-- acknowledged
abbrev pub moved_to : Receiver → TcpExport → Option ℕ → ℕ → Receiver
moved_to r e told n = taken (acknowledged (record r { exp = e }) told) n

pub moved_to-IsTame :
    {c d : Option ℕ} {max : ℕ} (r : Receiver) (e : TcpExport) (told : Option ℕ) (n : ℕ)
    (effects : List Effects)
    → d ≡ some r.id
    → IsTame c d max e effects
    → IsTame c d max (moved_to r e told n).exp effects
moved_to-IsTame {c} {d} {max} r e told n effects asks tame =
    taken-IsTame (acknowledged (record r { exp = e }) told) n effects
      (asks ∙ ap some (sym (acknowledged-id (record r { exp = e }) told)))
      (subst (λ e. IsTame c d max e effects) (sym (acknowledged-exp (record r { exp = e }) told))
        tame)

-- Taking bytes leaves a quiet receiver quiet, or at the end of its packet.
pub moved_to-IsQuiet :
    (r : Receiver) (e : TcpExport) (out : Effects) (n : ℕ)
    → IsQuiet r
    → Tells r.exp e out
    → IsQuiet (moved_to r e out.acked n)
      ⊎ ((moved_to r e out.acked n).bytes_remaining_in_packet ≡ 0)
moved_to-IsQuiet r e out n quiet tells =
    let (client, told) = not_told r e out quiet tells in
    let same = acknowledged-other (record r { exp = e }) out.acked told in
    subst (λ r'. IsQuiet (taken r' n) ⊎ ((taken r' n).bytes_remaining_in_packet ≡ 0)) (sym same)
      (taken-IsQuiet (record r { exp = e }) n (client, quiet.1))
