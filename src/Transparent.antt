-- ===== src/Transparent.antt =====
-- transparent/src/main.rs: the enclave that runs without a TEE.
pub mod Attested
use kassandra_service.Common.{ℕ, List}

-- `Transparent::get_quote`: the data itself.
unfoldable pub get_quote : List ℕ → List ℕ
get_quote report_data = report_data
