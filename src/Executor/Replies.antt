-- ===== src/Executor/Replies.antt =====
-- What an execution gives back: web/approval_executor.go.
use palaestra_mcp_bridge.Poolmgr.Pool.{Pool}
