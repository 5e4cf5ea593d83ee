-- ===== src/Pool/Reuse.antt =====
-- What `get_connection` of coredis/pool/basic.py hands out after a `release`.
use coredis.Pool.{Pool}
