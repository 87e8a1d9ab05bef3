-- ===== src/Pipeline/Shadow.antt =====
-- Shadow mode of internal/engine/engine.go.
use fortress_waf.Pipeline.Engine.{Engine}
use fortress_waf.Pipeline.Made.{Made}
