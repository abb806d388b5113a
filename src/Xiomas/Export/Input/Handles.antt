-- ===== src/Xiomas/Export/Input/Handles.antt =====
-- A run of acknowledgements as the queue sees it: what each makes of the queue, one after the other.
use cosmid.Base.{
  sum, ℕ, ◌+◌, ◌≤◌, ◌≡◌, refl, sym, ap, ◌∙◌, arith, Bool, true, Option, List, [], ◌∷◌, ◌++◌, length,
  length-append, append_assoc, append-nil, flatten, subst,
}
use cosmid.Serio.{Serio}
use cosmid.Xiomas.Circ.Inv.{IsValid, contents}
use cosmid.Xiomas.Export.{TcpExport, Effects}
use cosmid.Xiomas.Export.Drain.{Drains, outstanding_limit, Drains-Tells}
use cosmid.Xiomas.Export.Clients.{IsTame, Tells-IsTame}
use cosmid.Xiomas.Export.Forward.{acked}
use cosmid.Xiomas.Export.Input.{Output, reported, processed}

-- what the queue did, in order
abbrev pub effects_of : List Output → List Effects
effects_of [] = []
effects_of (reported _ ∷ out) = effects_of out
effects_of (processed effects ∷ out) = effects ∷ effects_of out

pub effects_of-append :
    (xs ys : List Output) → effects_of (xs ++ ys) ≡ effects_of xs ++ effects_of ys
effects_of-append [] ys = refl
effects_of-append (reported _ ∷ xs) ys = effects_of-append xs ys
effects_of-append (processed effects ∷ xs) ys = ap (λ l. effects ∷ l) (effects_of-append xs ys)

-- the bytes that the queue has sent, in order
abbrev pub sent_bytes : List Effects → List ℕ
sent_bytes [] = []
sent_bytes (effects ∷ more) = flatten effects.written ++ sent_bytes more

-- what acknowledgements do to the queue
pub record Sends (e : TcpExport) (ns : List ℕ) (e' : TcpExport) (sent : List ℕ) : Type 0 where
  pub valid : IsValid e'.queue
  pub in_order : contents e.queue ≡ sent ++ contents e'.queue
  pub at_most : e'.queue.outstanding_bytes ≤ e.queue.outstanding_bytes + length sent
  pub at_least : e.queue.outstanding_bytes + length sent ≤ e'.queue.outstanding_bytes + sum ns

module _ (s : Serio) (obuf_empty : List Output → List (List ℕ) → Bool) where
  pub data Handles : TcpExport → List ℕ → TcpExport → List Effects → Type 0 where
    none_left : (e : TcpExport) → Handles e [] e []
    handled :
        (out : List Output) (e e1 : TcpExport) (n : ℕ) (effects : Effects) {ns : List ℕ}
        {e' : TcpExport} {more : List Effects}
        → Drains s (obuf_empty out) (acked e n) e1 effects
        → Handles e1 ns e' more
        → Handles e (n ∷ ns) e' (effects ∷ more)

  pub Handles-Sends :
      {e e' : TcpExport} {ns : List ℕ} {effects : List Effects}
      → IsValid e.queue
      → Handles e ns e' effects
      → Sends e ns e' (sent_bytes effects)
  Handles-Sends v (none_left e) = record {
    valid = v;
    in_order = refl;
    at_most = omega arith;
    at_least = omega arith;
  }
  Handles-Sends {e' = e'} v (handled out e e1 n effects {more = more} d rest) =
      let later = Handles-Sends d.drained.valid rest in
      let sent : List ℕ = flatten effects.written in
      record {
        valid = later.valid;
        in_order =
            d.drained.in_order
            ∙ ap (λ l. sent ++ l) later.in_order
            ∙ sym (append_assoc sent (sent_bytes more) (contents e'.queue));
        at_most =
            omega (arith, d.drained.counted, later.at_most, length-append sent (sent_bytes more));
        at_least =
            omega (arith, d.drained.counted, later.at_least, length-append sent (sent_bytes more));
      }

  -- Acknowledgements keep the export client in order.
  pub Handles-IsTame :
      {c d : Option ℕ} {max : ℕ} {e e' : TcpExport} {ns : List ℕ} {effects : List Effects}
      (before : List Effects)
      → outstanding_limit s (λ written. true) ≤ max
      → IsTame c d max e before
      → Handles e ns e' effects
      → IsTame c d max e' (before ++ effects)
  Handles-IsTame {c} {d} {max} before below tame (none_left e) =
      subst (λ l. IsTame c d max e l) (sym (append-nil before)) tame
  Handles-IsTame {c} {d} {max} {e' = e'} before below tame
        (handled out e e1 n effects {more = more} drains rest) =
      let next =
        Tells-IsTame e e1 effects before tame drains.drained.valid
          (omega (arith, drains.drained.limited, tame.limited, below))
          (Drains-Tells s (obuf_empty out) (acked e n) e1 effects drains) in
      subst (λ l. IsTame c d max e' l) (append_assoc before (effects ∷ []) more)
        (Handles-IsTame (before ++ (effects ∷ [])) below next rest)
