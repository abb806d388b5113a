-- ===== src/Nephex/Apid/Reports.antt =====
-- What `not_reported` says, call after call.
use cosmid.Base.{
  ℕ, ◌≤◌, ◌<◌, ◌≡◌, ap, arith, true, false, some, none, List, length, set, get_or-set,
}
use cosmid.Nephex.Apid.{Entry, max_apid, blank, entry, not_reported}

-- For an APID of the table that was not reported yet, `not_reported` is true once: its next call is
-- false, and keeps the table. For an APID above 151 it reads out of the bounds of the table.
pub not_reported_once :
    (defs : List Entry) (apid : ℕ)
    → max_apid < length defs
    → (entry defs apid).reported ≡ 0
    → (apid ≤ max_apid
        → (defs' : List Entry) × (not_reported defs apid ≡ some (true, defs'))
          × (not_reported defs' apid ≡ some (false, defs')))
      × (max_apid < apid → not_reported defs apid ≡ none)
unfolding not_reported
not_reported_once defs apid whole fresh =
    let e' : Entry = record (entry defs apid) { reported = 1 } in
    (
      λ known.
          let same : entry (set defs apid e') apid ≡ e' =
            get_or-set defs apid e' blank (omega arith) in
          (set defs apid e', ground (arith, fresh), ground (arith, ap (λ e. e.reported) same)),
      λ unknown. ground arith,
    )
