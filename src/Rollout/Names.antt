-- ===== src/Rollout/Names.antt =====
-- internal/controller/agent_controller.go: how the list of superseded candidates names a revision.
use Prim.Native.String.{String, ◌++◌}

-- The revision's name, "@" and its digest
unfoldable pub superseded_name : String → String → String
superseded_name revision digest = revision ++ ("@" ++ digest)
