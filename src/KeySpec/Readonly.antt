-- ===== src/KeySpec/Readonly.antt =====
-- `KeySpec.READONLY` of coredis/commands/_key_spec.py.
use coredis.Prelude.{ℕ, List, [], ◌∷◌}
use coredis.Prelude.Int.{pos}
use coredis.Resp.Errors.{codes}
use coredis.KeySpec.Spec.{Spec, len, literal, counted, one, range, streams}

unfoldable pub readonly : List (List ℕ × Spec)
readonly =
    (codes "BITCOUNT", one 1)
    ∷ (codes "BITFIELD_RO", one 1)
    ∷ (codes "BITOP", range 3 len)
    ∷ (codes "BITPOS", one 1)
    ∷ (codes "COPY", one 1)
    ∷ (codes "DUMP", one 1)
    ∷ (codes "EVALSHA_RO", range 3 (counted 2))
    ∷ (codes "EVAL_RO", range 3 (counted 2))
    ∷ (codes "EXISTS", range 1 len)
    ∷ (codes "EXPIRETIME", one 1)
    ∷ (codes "FCALL_RO", range 3 (counted 2))
    ∷ (codes "GEODIST", one 1)
    ∷ (codes "GEOHASH", one 1)
    ∷ (codes "GEOPOS", one 1)
    ∷ (codes "GEORADIUS", one 1)
    ∷ (codes "GEORADIUSBYMEMBER", one 1)
    ∷ (codes "GEORADIUSBYMEMBER_RO", one 1)
    ∷ (codes "GEORADIUS_RO", one 1)
    ∷ (codes "GEOSEARCH", one 1)
    ∷ (codes "GEOSEARCHSTORE", one 2)
    ∷ (codes "GET", one 1)
    ∷ (codes "GETBIT", one 1)
    ∷ (codes "GETRANGE", one 1)
    ∷ (codes "HEXISTS", one 1)
    ∷ (codes "HGET", one 1)
    ∷ (codes "HGETALL", one 1)
    ∷ (codes "HKEYS", one 1)
    ∷ (codes "HLEN", one 1)
    ∷ (codes "HMGET", one 1)
    ∷ (codes "HRANDFIELD", one 1)
    ∷ (codes "HSCAN", one 1)
    ∷ (codes "HSTRLEN", one 1)
    ∷ (codes "HVALS", one 1)
    ∷ (codes "LCS", range 1 (literal (pos 2)))
    ∷ (codes "LINDEX", one 1)
    ∷ (codes "LLEN", one 1)
    ∷ (codes "LPOS", one 1)
    ∷ (codes "LRANGE", one 1)
    ∷ (codes "MEMORY USAGE", one 1)
    ∷ (codes "MGET", range 1 len)
    ∷ (codes "OBJECT ENCODING", one 1)
    ∷ (codes "OBJECT FREQ", one 1)
    ∷ (codes "OBJECT IDLETIME", one 1)
    ∷ (codes "OBJECT REFCOUNT", one 1)
    ∷ (codes "PEXPIRETIME", one 1)
    ∷ (codes "PFMERGE", range 2 len)
    ∷ (codes "PTTL", one 1)
    ∷ (codes "SCARD", one 1)
    ∷ (codes "SDIFF", range 1 len)
    ∷ (codes "SDIFFSTORE", range 2 len)
    ∷ (codes "SINTER", range 1 len)
    ∷ (codes "SINTERCARD", range 2 (counted 1))
    ∷ (codes "SINTERSTORE", range 2 len)
    ∷ (codes "SISMEMBER", one 1)
    ∷ (codes "SMEMBERS", one 1)
    ∷ (codes "SMISMEMBER", one 1)
    ∷ (codes "SORT", one 1)
    ∷ (codes "SORT_RO", one 1)
    ∷ (codes "SRANDMEMBER", one 1)
    ∷ (codes "SSCAN", one 1)
    ∷ (codes "STRLEN", one 1)
    ∷ (codes "SUBSTR", one 1)
    ∷ (codes "SUNION", range 1 len)
    ∷ (codes "SUNIONSTORE", range 2 len)
    ∷ (codes "TOUCH", range 1 len)
    ∷ (codes "TTL", one 1)
    ∷ (codes "TYPE", one 1)
    ∷ (codes "WATCH", range 1 len)
    ∷ (codes "XINFO CONSUMERS", one 1)
    ∷ (codes "XINFO GROUPS", one 1)
    ∷ (codes "XINFO STREAM", one 1)
    ∷ (codes "XLEN", one 1)
    ∷ (codes "XPENDING", one 1)
    ∷ (codes "XRANGE", one 1)
    ∷ (codes "XREAD", streams 1)
    ∷ (codes "XREADGROUP", streams 4)
    ∷ (codes "XREVRANGE", one 1)
    ∷ (codes "ZCARD", one 1)
    ∷ (codes "ZCOUNT", one 1)
    ∷ (codes "ZDIFF", range 2 (counted 1))
    ∷ (codes "ZDIFFSTORE", range 3 (counted 2))
    ∷ (codes "ZINTER", range 2 (counted 1))
    ∷ (codes "ZINTERCARD", range 2 (counted 1))
    ∷ (codes "ZINTERSTORE", range 3 (counted 2))
    ∷ (codes "ZLEXCOUNT", one 1)
    ∷ (codes "ZMSCORE", one 1)
    ∷ (codes "ZRANDMEMBER", one 1)
    ∷ (codes "ZRANGE", one 1)
    ∷ (codes "ZRANGEBYLEX", one 1)
    ∷ (codes "ZRANGEBYSCORE", one 1)
    ∷ (codes "ZRANGESTORE", one 2)
    ∷ (codes "ZRANK", one 1)
    ∷ (codes "ZREVRANGE", one 1)
    ∷ (codes "ZREVRANGEBYLEX", one 1)
    ∷ (codes "ZREVRANGEBYSCORE", one 1)
    ∷ (codes "ZREVRANK", one 1)
    ∷ (codes "ZSCAN", one 1)
    ∷ (codes "ZSCORE", one 1)
    ∷ (codes "ZUNION", range 2 (counted 1))
    ∷ (codes "ZUNIONSTORE", range 3 (counted 2))
    ∷ []
