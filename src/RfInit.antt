-- ===== src/RfInit.antt =====
-- user/rfinit.c: where the data of the radio stands in the flash, and what is set before the radio
-- starts.
use esp_mqtt.Base.{ℕ, ◌-◌, ◌≡◌, refl, List, [], ◌∷◌}

-- `enum flash_size_map` of the SDK, as far as rfinit.c names it.
pub data FlashSizeMap : Type 0 where
  size_4m_map_256_256 size_8m_map_512_512 size_16m_map_512_512 : FlashSizeMap
  size_16m_map_1024_1024 size_32m_map_512_512 size_32m_map_1024_1024 : FlashSizeMap
  other_map : ℕ → FlashSizeMap

-- `user_rf_cal_sector_set` of what `system_get_flash_size_map` says.
unfoldable pub user_rf_cal_sector_set : FlashSizeMap → ℕ
user_rf_cal_sector_set size_4m_map_256_256 = 128 - 5
user_rf_cal_sector_set size_8m_map_512_512 = 256 - 5
user_rf_cal_sector_set size_16m_map_512_512 = 512 - 5
user_rf_cal_sector_set size_16m_map_1024_1024 = 512 - 5
user_rf_cal_sector_set size_32m_map_512_512 = 1024 - 5
user_rf_cal_sector_set size_32m_map_1024_1024 = 1024 - 5
user_rf_cal_sector_set (other_map n) = 0

-- The last but four sectors of the flash, or the first where its size is not known.
rf_sectors :
    (user_rf_cal_sector_set size_16m_map_512_512 ≡ 507) × (user_rf_cal_sector_set (other_map 9) ≡ 0)
unfolding user_rf_cal_sector_set
rf_sectors = (refl, refl)

-- A call of the SDK that sets up the radio, with its argument.
pub data RfCall : Type 0 where
  system_phy_set_rfoption system_phy_set_max_tpw : ℕ → RfCall

-- `user_rf_pre_init`, after the calls so far, the latest first.
unfoldable pub user_rf_pre_init : List RfCall → List RfCall
user_rf_pre_init log = system_phy_set_max_tpw 82 ∷ system_phy_set_rfoption 1 ∷ log

rf_calls : user_rf_pre_init [] ≡ system_phy_set_max_tpw 82 ∷ system_phy_set_rfoption 1 ∷ []
unfolding user_rf_pre_init
rf_calls = refl
