-- ===== src/Pops/Fields.antt =====
-- POPS/POPS.cc, UserPkts_UDP::protocol_input, and POPS/POPS.h: the variables that a packet is scanned
-- into behind `TimeSSM`, in the order in which they are scanned, and what is stored.
use cosmid.Base.{ℕ, ℤ, List, [], ◌∷◌, ◌==◌, if◌then◌else◌}

pub data Name : Type 0 where
  int_status data_status part_num hist_sum part_con_num_cc baseline blth std max_std : Name
  p_mbar ms_temp pump_life width_std width_avg flow pump_fb ld_temp laser_fb ld_mon : Name
  air_temp bat_v laser_current flow_set bl_start th_mult n_bins logmin logmax skip_save : Name
  min_peak_pts max_peak_pts raw_pts bin01 bin02 bin03 bin04 bin05 bin06 bin07 bin08 : Name
  bin09 bin10 bin11 bin12 bin13 bin14 bin15 bin16 : Name

-- the scanner that a variable is read by
pub data Kind : Type 0 where
  nfloat uint8 uint16 uint32 int32 : Kind

unfoldable pub kind : Name → Kind
kind int_status = uint8
kind data_status = uint8
kind part_num = uint32
kind hist_sum = uint32
kind part_con_num_cc = nfloat
kind baseline = uint32
kind blth = uint32
kind std = nfloat
kind max_std = nfloat
kind p_mbar = nfloat
kind ms_temp = nfloat
kind pump_life = nfloat
kind width_std = nfloat
kind width_avg = nfloat
kind flow = nfloat
kind pump_fb = nfloat
kind ld_temp = nfloat
kind laser_fb = nfloat
kind ld_mon = nfloat
kind air_temp = nfloat
kind bat_v = nfloat
kind laser_current = nfloat
kind flow_set = nfloat
kind bl_start = uint32
kind th_mult = nfloat
kind n_bins = uint16
kind logmin = nfloat
kind logmax = nfloat
kind skip_save = int32
kind min_peak_pts = uint32
kind max_peak_pts = uint32
kind raw_pts = int32
kind bin01 = uint32
kind bin02 = uint32
kind bin03 = uint32
kind bin04 = uint32
kind bin05 = uint32
kind bin06 = uint32
kind bin07 = uint32
kind bin08 = uint32
kind bin09 = uint32
kind bin10 = uint32
kind bin11 = uint32
kind bin12 = uint32
kind bin13 = uint32
kind bin14 = uint32
kind bin15 = uint32
kind bin16 = uint32

-- the place of a variable in the packet
abbrev pub index : Name → ℕ
index int_status = 0
index data_status = 1
index part_num = 2
index hist_sum = 3
index part_con_num_cc = 4
index baseline = 5
index blth = 6
index std = 7
index max_std = 8
index p_mbar = 9
index ms_temp = 10
index pump_life = 11
index width_std = 12
index width_avg = 13
index flow = 14
index pump_fb = 15
index ld_temp = 16
index laser_fb = 17
index ld_mon = 18
index air_temp = 19
index bat_v = 20
index laser_current = 21
index flow_set = 22
index bl_start = 23
index th_mult = 24
index n_bins = 25
index logmin = 26
index logmax = 27
index skip_save = 28
index min_peak_pts = 29
index max_peak_pts = 30
index raw_pts = 31
index bin01 = 32
index bin02 = 33
index bin03 = 34
index bin04 = 35
index bin05 = 36
index bin06 = 37
index bin07 = 38
index bin08 = 39
index bin09 = 40
index bin10 = 41
index bin11 = 42
index bin12 = 43
index bin13 = 44
index bin14 = 45
index bin15 = 46
index bin16 = 47

-- the variables behind the first, `int_status`
abbrev pub fields : List Name
fields =
    data_status ∷ part_num ∷ hist_sum ∷ part_con_num_cc ∷ baseline ∷ blth ∷ std ∷ max_std ∷ p_mbar
    ∷ ms_temp ∷ pump_life ∷ width_std ∷ width_avg ∷ flow ∷ pump_fb ∷ ld_temp ∷ laser_fb ∷ ld_mon
    ∷ air_temp ∷ bat_v ∷ laser_current ∷ flow_set ∷ bl_start ∷ th_mult ∷ n_bins ∷ logmin ∷ logmax
    ∷ skip_save ∷ min_peak_pts ∷ max_peak_pts ∷ raw_pts ∷ bin01 ∷ bin02 ∷ bin03 ∷ bin04 ∷ bin05
    ∷ bin06 ∷ bin07 ∷ bin08 ∷ bin09 ∷ bin10 ∷ bin11 ∷ bin12 ∷ bin13 ∷ bin14 ∷ bin15 ∷ bin16 ∷ []

-- the assignments `POPS.name = name`
abbrev pub stored : List Name
stored =
    int_status ∷ data_status ∷ part_num ∷ hist_sum ∷ part_con_num_cc ∷ baseline ∷ blth ∷ std
    ∷ max_std ∷ p_mbar ∷ ms_temp ∷ pump_life ∷ width_std ∷ width_avg ∷ flow ∷ pump_fb ∷ ld_temp
    ∷ laser_fb ∷ ld_mon ∷ air_temp ∷ bat_v ∷ bl_start ∷ th_mult ∷ n_bins ∷ logmin ∷ logmax
    ∷ skip_save ∷ min_peak_pts ∷ max_peak_pts ∷ raw_pts ∷ bin01 ∷ bin02 ∷ bin03 ∷ bin04 ∷ bin05
    ∷ bin06 ∷ bin07 ∷ bin08 ∷ bin09 ∷ bin10 ∷ bin11 ∷ bin12 ∷ bin13 ∷ bin14 ∷ bin15 ∷ bin16 ∷ []

pub data Value (Float : Type 0) : Type 0 where
  real : Float → Value Float
  nat : ℕ → Value Float
  int : ℤ → Value Float

-- Local variables, and the fields of `POPS_t`, as a function of their names.
module _ {Float : Type 0} where
  abbrev pub assign : Name → Value Float → (Name → Value Float) → Name → Value Float
  assign n v env m = if index m == index n then v else env m

  -- `POPS.n = n` for each of the names
  unfoldable pub store :
      List Name → (Name → Value Float) → (Name → Value Float) → Name → Value Float
  store [] env pops = pops
  store (n ∷ ns) env pops = store ns env (assign n (env n) pops)
