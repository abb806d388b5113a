-- ===== src/Pops/Packet/Columns.antt =====
-- The line of values that the instrument writes behind the time of a packet.
use cosmid.Base.{ℕ, ◌++◌, ◌≡◌, refl, List, [], ◌∷◌}
use cosmid.Pops.Fields.{
  Name, int_status, data_status, part_num, hist_sum, part_con_num_cc, baseline, blth, std, max_std,
  p_mbar, ms_temp, pump_life, width_std, width_avg, flow, pump_fb, ld_temp, laser_fb, ld_mon,
  air_temp, bat_v, laser_current, flow_set, bl_start, th_mult, n_bins, logmin, logmax, skip_save,
  min_peak_pts, max_peak_pts, raw_pts, bin01, bin02, bin03, bin04, bin05, bin06, bin07, bin08,
  bin09, bin10, bin11, bin12, bin13, bin14, bin15, bin16, Kind, nfloat, uint8, uint16, uint32,
  int32, kind, fields,
}

-- the fields, with a comma between any two
abbrev pub join : Name → List Name → (Name → List ℕ) → List ℕ
join n [] text = text n
join n (m ∷ ns) text = text n ++ (b',' ∷ join m ns text)

-- What the instrument writes behind `TimeSSM`, in its order, and the type of each.
abbrev pub columns : List Name
columns =
    int_status ∷ data_status ∷ part_num ∷ hist_sum ∷ part_con_num_cc ∷ baseline ∷ blth ∷ std
    ∷ max_std ∷ p_mbar ∷ ms_temp ∷ pump_life ∷ width_std ∷ width_avg ∷ flow ∷ pump_fb ∷ ld_temp
    ∷ laser_fb ∷ ld_mon ∷ air_temp ∷ bat_v ∷ laser_current ∷ flow_set ∷ bl_start ∷ th_mult ∷ n_bins
    ∷ logmin ∷ logmax ∷ skip_save ∷ min_peak_pts ∷ max_peak_pts ∷ raw_pts ∷ bin01 ∷ bin02 ∷ bin03
    ∷ bin04 ∷ bin05 ∷ bin06 ∷ bin07 ∷ bin08 ∷ bin09 ∷ bin10 ∷ bin11 ∷ bin12 ∷ bin13 ∷ bin14 ∷ bin15
    ∷ bin16 ∷ []

abbrev pub column_kind : Name → Kind
column_kind int_status = uint8
column_kind data_status = uint8
column_kind n_bins = uint16
column_kind skip_save = int32
column_kind raw_pts = int32
column_kind part_num = uint32
column_kind hist_sum = uint32
column_kind baseline = uint32
column_kind blth = uint32
column_kind bl_start = uint32
column_kind min_peak_pts = uint32
column_kind max_peak_pts = uint32
column_kind bin01 = uint32
column_kind bin02 = uint32
column_kind bin03 = uint32
column_kind bin04 = uint32
column_kind bin05 = uint32
column_kind bin06 = uint32
column_kind bin07 = uint32
column_kind bin08 = uint32
column_kind bin09 = uint32
column_kind bin10 = uint32
column_kind bin11 = uint32
column_kind bin12 = uint32
column_kind bin13 = uint32
column_kind bin14 = uint32
column_kind bin15 = uint32
column_kind bin16 = uint32
column_kind _ = nfloat

pub kind-column : (n : Name) → kind n ≡ column_kind n
unfolding kind
kind-column int_status = refl
kind-column _ = refl

-- the columns, with a comma between any two
abbrev pub line : List Name → (Name → List ℕ) → List ℕ
line [] text = []
line (n ∷ []) text = text n
line (n ∷ m ∷ ns) text = text n ++ (b',' ∷ line (m ∷ ns) text)

pub line-join : (text : Name → List ℕ) → line columns text ≡ join int_status fields text
line-join text = refl
