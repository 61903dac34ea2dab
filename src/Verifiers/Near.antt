-- ===== src/Verifiers/Near.antt =====
-- verifiers/near_ai_lightclient.py: the NEAR AI light client. `Chain` is the set of authorized
-- compose hashes, `LightClient` the checks of one response.
pub mod Chain
pub mod LightClient
