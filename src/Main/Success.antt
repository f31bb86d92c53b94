-- ===== src/Main/Success.antt =====
-- When `main` goes through.
use Prim.Native.String.{String}
use bas_relay_hub.Config.{Config}
