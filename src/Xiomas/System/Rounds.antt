-- ===== src/Xiomas/System/Rounds.antt =====
-- One acknowledgement of all that is outstanding: what it does to the queue, and whom it tells.
use cosmid.Base.{
  ℕ, ◌+◌, ◌≤◌, ◌≡◌, inl, inr, refl, ap, arith, Bool, true, Option, none, some, List, [], ◌∷◌,
  length, length-append, flatten,
}
use cosmid.Serio.{Serio}
use cosmid.Xiomas.Circ.Inv.{contents}
use cosmid.Xiomas.Export.{TcpExport, Effects}
use cosmid.Xiomas.Export.Drain.{Drains, cts-clear}
use cosmid.Xiomas.Export.Forward.{acked}
use cosmid.Xiomas.Export.Input
use cosmid.Xiomas.Export.Input.{app_input}
use cosmid.Xiomas.Export.Input.Handles.{Handles, none_left, handled}
use cosmid.Xiomas.Receiver.Fields.{Receiver, acknowledged}
use cosmid.Xiomas.System.{Gateway, Happening, Result, find, tell_all}

-- The output buffer to tm_ip_export is always empty.
abbrev pub clear : List Input.Output → List (List ℕ) → Bool
clear out written = true

-- what one acknowledgement of all that is outstanding has done
pub data Round (e e' : TcpExport) : List Effects → Type 0 where
  emptied :
      (effects : Effects)
      → contents e'.queue ≡ []
      → e'.client ≡ none
      → effects.acked ≡ e.client
      → Round e e' (effects ∷ [])
  lowered :
      (effects : Effects)
      → length (contents e'.queue) + 2000 ≤ length (contents e.queue)
      → e'.client ≡ e.client
      → effects.acked ≡ none
      → Round e e' (effects ∷ [])

Drains-Round :
    (s : Serio) (out : List Input.Output) (e e' : TcpExport) (n : ℕ) (effects : Effects)
    → e.queue.outstanding_bytes ≤ n
    → Drains s (clear out) (acked e n) e' effects
    → Round e e' (effects ∷ [])
Drains-Round s out e e' n effects enough d = elim d.told [
  | inl (empty, told, forgotten) ↦ emptied effects empty forgotten told
  | inr (more, silent, kept) ↦ elim d.drained.stopped [
    | inl empty ↦ absurd (more empty)
    | inr held ↦
        lowered effects omega
          (
            arith,
            enough,
            cts-clear s (clear out) e' effects.written refl held,
            d.drained.counted,
            ap length d.drained.in_order,
            length-append (flatten effects.written) (contents e'.queue),
          )
          kept silent
  ]
]

pub Handles-Round :
    (s : Serio) {e e' : TcpExport} {n : ℕ} {effects : List Effects}
    → e.queue.outstanding_bytes ≤ n
    → Handles s clear e (n ∷ []) e' effects
    → Round e e' effects
Handles-Round s enough (handled out e e1 n effects d (none_left _)) =
    Drains-Round s out e e1 n effects enough d

-- `r`, with the number `id`, is waited for.
pub record IsAwaited (id : ℕ) (g : Gateway) : Type 0 where
  pub r : Receiver
  pub here : find id g.receivers ≡ some r
  pub awaited : g.exp.client ≡ some id

-- The queue is empty, and `r` was told.
pub record IsTold (id : ℕ) (g : Gateway) : Type 0 where
  pub r : Receiver
  pub here : find id g.receivers ≡ some r
  pub empty : contents g.exp.queue ≡ []
  pub forgotten : g.exp.client ≡ none
  pub waits : r.waits_for_timeout ≡ true

acknowledged_self : (r : Receiver) → (acknowledged r (some r.id)).waits_for_timeout ≡ true
unfolding acknowledged
acknowledged_self r = ground arith

pub tell_one :
    (r : Receiver) (effects : Effects)
    → effects.acked ≡ some r.id
    → (tell_all (effects ∷ []) r).waits_for_timeout ≡ true
unfolding tell_all
tell_one r effects e = rw e (acknowledged_self r)

pub tell_none :
    (r : Receiver) (effects : Effects) → effects.acked ≡ none → tell_all (effects ∷ []) r ≡ r
unfolding tell_all acknowledged
tell_none r effects e = rw e refl

pub reached :
    {g g' : Gateway} {out out' : List Happening}
    → ◌≡◌ {A = Option Result} (some (some (g, out))) (some (some (g', out')))
    → g ≡ g'
reached e = cc
