-- ===== src/Examples/FileStorage.antt =====
-- The key of an upload of a tenant whose name tries to leave the folder.
use xygo_aec.Base.{true, ◌≡◌, refl}
use xygo_aec.FileStorage.{storage_key_of, is_local_key, is_key_character}
use xygo_aec.FileStorage.Keys.{storage_key_of-local}

storage_key_of-local_example :
    is_local_key (storage_key_of (λ t. "0a1b2c3d4e5f6071") "../Tenant A" "7c9e6679-7425") ≡ true
unfolding is_key_character
storage_key_of-local_example =
    storage_key_of-local (λ t. "0a1b2c3d4e5f6071") "../Tenant A" "7c9e6679-7425" refl refl refl
