-- ===== src/KeySpec/All.antt =====
-- `KeySpec.ALL` of coredis/commands/_key_spec.py.
use coredis.Prelude.{ℕ, List, [], ◌∷◌}
use coredis.Prelude.Int.{pos, negsuc}
use coredis.Resp.Errors.{codes}
use coredis.KeySpec.Spec.{
  Spec, len, len_less, literal, counted, one, range, stepped, both, streams, last_keys, behind,
}

unfoldable pub all_keys_third : List (List ℕ × Spec)
all_keys_third =
    (codes "JSON.ARRTRIM", one 1)
    ∷ (codes "JSON.OBJKEYS", one 1)
    ∷ (codes "JSON.OBJLEN", one 1)
    ∷ (codes "JSON.TYPE", one 1)
    ∷ (codes "JSON.RESP", one 1)
    ∷ (codes "JSON.TOGGLE", one 1)
    ∷ (codes "JSON.CLEAR", one 1)
    ∷ (codes "JSON.NUMMULTBY", one 1)
    ∷ (codes "JSON.MERGE", one 1)
    ∷ (codes "JSON.MSET", stepped 1 len 3)
    ∷ (codes "BF.RESERVE", one 1)
    ∷ (codes "BF.ADD", one 1)
    ∷ (codes "BF.MADD", one 1)
    ∷ (codes "BF.INSERT", one 1)
    ∷ (codes "BF.EXISTS", one 1)
    ∷ (codes "BF.MEXISTS", one 1)
    ∷ (codes "BF.SCANDUMP", one 1)
    ∷ (codes "BF.LOADCHUNK", one 1)
    ∷ (codes "BF.INFO", one 1)
    ∷ (codes "BF.CARD", one 1)
    ∷ (codes "CF.RESERVE", one 1)
    ∷ (codes "CF.ADD", one 1)
    ∷ (codes "CF.ADDNX", one 1)
    ∷ (codes "CF.INSERT", one 1)
    ∷ (codes "CF.INSERTNX", one 1)
    ∷ (codes "CF.EXISTS", one 1)
    ∷ (codes "CF.MEXISTS", one 1)
    ∷ (codes "CF.DEL", one 1)
    ∷ (codes "CF.COUNT", one 1)
    ∷ (codes "CF.SCANDUMP", one 1)
    ∷ (codes "CF.LOADCHUNK", one 1)
    ∷ (codes "CF.INFO", one 1)
    ∷ (codes "CMS.INITBYDIM", one 1)
    ∷ (codes "CMS.INITBYPROB", one 1)
    ∷ (codes "CMS.INCRBY", one 1)
    ∷ (codes "CMS.QUERY", one 1)
    ∷ (codes "CMS.INFO", one 1)
    ∷ (codes "CMS.MERGE", both (one 1) (range 3 (counted 2)))
    ∷ (codes "TOPK.RESERVE", one 1)
    ∷ (codes "TOPK.ADD", one 1)
    ∷ (codes "TOPK.INCRBY", one 1)
    ∷ (codes "TOPK.QUERY", one 1)
    ∷ (codes "TOPK.LIST", one 1)
    ∷ (codes "TOPK.INFO", one 1)
    ∷ (codes "TOPK.COUNT", one 1)
    ∷ (codes "TDIGEST.CREATE", one 1)
    ∷ (codes "TDIGEST.RESET", one 1)
    ∷ (codes "TDIGEST.ADD", one 1)
    ∷ (codes "TDIGEST.MERGE", both (one 1) (range 3 (counted 2)))
    ∷ (codes "TDIGEST.MIN", one 1)
    ∷ (codes "TDIGEST.MAX", one 1)
    ∷ (codes "TDIGEST.QUANTILE", one 1)
    ∷ (codes "TDIGEST.CDF", one 1)
    ∷ (codes "TDIGEST.TRIMMED_MEAN", one 1)
    ∷ (codes "TDIGEST.RANK", one 1)
    ∷ (codes "TDIGEST.REVRANK", one 1)
    ∷ (codes "TDIGEST.BYRANK", one 1)
    ∷ (codes "TDIGEST.BYREVRANK", one 1)
    ∷ (codes "TDIGEST.INFO", one 1)
    ∷ (codes "TS.CREATE", one 1)
    ∷ (codes "TS.CREATERULE", range 1 (literal (pos 3)))
    ∷ (codes "TS.ALTER", one 1)
    ∷ (codes "TS.ADD", one 1)
    ∷ (codes "TS.MADD", stepped 1 (literal (negsuc 0)) 3)
    ∷ (codes "TS.INCRBY", one 1)
    ∷ (codes "TS.DECRBY", one 1)
    ∷ (codes "TS.DELETERULE", range 1 (literal (pos 3)))
    ∷ (codes "TS.GET", one 1)
    ∷ (codes "TS.INFO", one 1)
    ∷ (codes "TS.REVRANGE", one 1)
    ∷ (codes "TS.RANGE", one 1)
    ∷ (codes "TS.DEL", one 1)
    ∷ (codes "FT.CREATE", one 1)
    ∷ (codes "FT.INFO", one 1)
    ∷ (codes "FT.ALTER", one 1)
    ∷ (codes "FT.ALIASADD", one 1)
    ∷ (codes "FT.ALIASUPDATE", one 1)
    ∷ (codes "FT.ALIASDEL", one 1)
    ∷ (codes "FT.TAGVALS", one 1)
    ∷ (codes "FT.CONFIG GET", one 1)
    ∷ (codes "FT.CONFIG SET", one 1)
    ∷ (codes "FT.SEARCH", one 1)
    ∷ (codes "FT.AGGREGATE", one 1)
    ∷ (codes "FT.CURSOR GET", one 1)
    ∷ (codes "FT.CURSOR DEL", one 1)
    ∷ (codes "FT.SYNUPDATE", one 1)
    ∷ (codes "FT.SYNDUMP", one 1)
    ∷ (codes "FT.SPELLCHECK", one 1)
    ∷ (codes "FT.DICTADD", one 1)
    ∷ (codes "FT.DICTDEL", one 1)
    ∷ (codes "FT.DICTDUMP", one 1)
    ∷ (codes "FT.DROPINDEX", one 1)
    ∷ (codes "FT.SUGADD", one 1)
    ∷ (codes "FT.SUGDEL", one 1)
    ∷ (codes "FT.SUGGET", one 1)
    ∷ (codes "FT.SUGLEN", one 1)
    ∷ (codes "GRAPH.QUERY", one 1)
    ∷ (codes "GRAPH.DELETE", one 1)
    ∷ (codes "GRAPH.EXPLAIN", one 1)
    ∷ (codes "GRAPH.PROFILE", one 1)
    ∷ (codes "GRAPH.SLOWLOG", one 1)
    ∷ (codes "GRAPH.CONSTRAINT CREATE", one 1)
    ∷ (codes "GRAPH.CONSTRAINT DROP", one 1)
    ∷ (codes "GRAPH.RO_QUERY", one 1)
    ∷ []

unfoldable pub all_keys_second : List (List ℕ × Spec)
all_keys_second =
    (codes "GETRANGE", one 1)
    ∷ (codes "HEXISTS", one 1)
    ∷ (codes "HGET", one 1)
    ∷ (codes "HGETALL", one 1)
    ∷ (codes "HKEYS", one 1)
    ∷ (codes "HLEN", one 1)
    ∷ (codes "HMGET", one 1)
    ∷ (codes "HRANDFIELD", one 1)
    ∷ (codes "HSCAN", one 1)
    ∷ (codes "HSTRLEN", one 1)
    ∷ (codes "HVALS", one 1)
    ∷ (codes "LCS", range 1 (literal (pos 2)))
    ∷ (codes "LINDEX", one 1)
    ∷ (codes "LLEN", one 1)
    ∷ (codes "LPOS", one 1)
    ∷ (codes "LRANGE", one 1)
    ∷ (codes "MEMORY USAGE", one 1)
    ∷ (codes "MGET", range 1 len)
    ∷ (codes "OBJECT ENCODING", one 1)
    ∷ (codes "OBJECT FREQ", one 1)
    ∷ (codes "OBJECT IDLETIME", one 1)
    ∷ (codes "OBJECT REFCOUNT", one 1)
    ∷ (codes "PEXPIRETIME", one 1)
    ∷ (codes "PTTL", one 1)
    ∷ (codes "SCARD", one 1)
    ∷ (codes "SDIFF", range 1 len)
    ∷ (codes "SDIFFSTORE", both (range 2 len) (one 1))
    ∷ (codes "SINTER", range 1 len)
    ∷ (codes "SINTERCARD", range 2 (counted 1))
    ∷ (codes "SISMEMBER", one 1)
    ∷ (codes "SMEMBERS", one 1)
    ∷ (codes "SMISMEMBER", one 1)
    ∷ (codes "SORT", one 1)
    ∷ (codes "SORT_RO", one 1)
    ∷ (codes "SRANDMEMBER", one 1)
    ∷ (codes "SSCAN", one 1)
    ∷ (codes "STRLEN", one 1)
    ∷ (codes "SUBSTR", one 1)
    ∷ (codes "SUNION", range 1 len)
    ∷ (codes "SUNIONSTORE", both (range 2 len) (one 1))
    ∷ (codes "TOUCH", range 1 len)
    ∷ (codes "TTL", one 1)
    ∷ (codes "TYPE", one 1)
    ∷ (codes "WATCH", range 1 len)
    ∷ (codes "XINFO CONSUMERS", one 1)
    ∷ (codes "XINFO GROUPS", one 1)
    ∷ (codes "XINFO STREAM", one 1)
    ∷ (codes "XLEN", one 1)
    ∷ (codes "XPENDING", one 1)
    ∷ (codes "XRANGE", one 1)
    ∷ (codes "XREAD", streams 1)
    ∷ (codes "XREADGROUP", streams 4)
    ∷ (codes "XREVRANGE", one 1)
    ∷ (codes "ZCARD", one 1)
    ∷ (codes "ZCOUNT", one 1)
    ∷ (codes "ZDIFF", range 2 (counted 1))
    ∷ (codes "ZDIFFSTORE", both (range 3 (counted 2)) (one 1))
    ∷ (codes "ZINTER", range 2 (counted 1))
    ∷ (codes "ZINTERCARD", range 2 (counted 1))
    ∷ (codes "ZINTERSTORE", both (range 3 (counted 2)) (one 1))
    ∷ (codes "ZLEXCOUNT", one 1)
    ∷ (codes "ZMSCORE", one 1)
    ∷ (codes "ZRANDMEMBER", one 1)
    ∷ (codes "ZRANGE", one 1)
    ∷ (codes "ZRANGEBYLEX", one 1)
    ∷ (codes "ZRANGEBYSCORE", one 1)
    ∷ (codes "ZRANGESTORE", both (one 2) (one 1))
    ∷ (codes "ZRANK", one 1)
    ∷ (codes "ZREVRANGE", one 1)
    ∷ (codes "ZREVRANGEBYLEX", one 1)
    ∷ (codes "ZREVRANGEBYSCORE", one 1)
    ∷ (codes "ZREVRANK", one 1)
    ∷ (codes "ZSCAN", one 1)
    ∷ (codes "ZSCORE", one 1)
    ∷ (codes "ZUNION", range 2 (counted 1))
    ∷ (codes "ZUNIONSTORE", both (range 3 (counted 2)) (one 1))
    ∷ (codes "MSET", stepped 1 len 2)
    ∷ (codes "MSETNX", stepped 1 len 2)
    ∷ (codes "PSETEX", one 1)
    ∷ (codes "RESTORE", one 1)
    ∷ (codes "RESTORE-ASKING", one 1)
    ∷ (codes "SETEX", one 1)
    ∷ (codes "SETNX", one 1)
    ∷ (codes "DEL", range 1 len)
    ∷ (codes "SPUBLISH", one 1)
    ∷ (codes "SSUBSCRIBE", range 1 len)
    ∷ (codes "SUNSUBSCRIBE", range 1 len)
    ∷ (codes "UNLINK", range 1 len)
    ∷ (codes "EXPIREMEMBER", one 1)
    ∷ (codes "EXPIREMEMBERAT", one 1)
    ∷ (codes "PEXPIREMEMBERAT", one 1)
    ∷ (codes "KEYDB.HRENAME", one 1)
    ∷ (codes "KEYDB.MEXISTS", range 1 len)
    ∷ (codes "OBJECT LASTMODIFIED", one 1)
    ∷ (codes "JSON.DEBUG MEMORY", one 1)
    ∷ (codes "JSON.DEL", one 1)
    ∷ (codes "JSON.FORGET", one 1)
    ∷ (codes "JSON.GET", one 1)
    ∷ (codes "JSON.SET", one 1)
    ∷ (codes "JSON.NUMINCRBY", one 1)
    ∷ (codes "JSON.STRAPPEND", one 1)
    ∷ (codes "JSON.STRLEN", one 1)
    ∷ (codes "JSON.ARRAPPEND", one 1)
    ∷ (codes "JSON.ARRINDEX", one 1)
    ∷ (codes "JSON.ARRINSERT", one 1)
    ∷ (codes "JSON.ARRLEN", one 1)
    ∷ (codes "JSON.ARRPOP", one 1)
    ∷ all_keys_third

unfoldable pub all_keys : List (List ℕ × Spec)
all_keys =
    (codes "OBJECT", one 2)
    ∷ (codes "DEBUG OBJECT", one 1)
    ∷ (codes "APPEND", one 1)
    ∷ (codes "BITFIELD", one 1)
    ∷ (codes "BLMOVE", both (one 1) (one 2))
    ∷ (codes "BLMPOP", range 3 (counted 2))
    ∷ (codes "BLPOP", range 1 (len_less 1))
    ∷ (codes "BRPOP", range 1 (len_less 1))
    ∷ (codes "BRPOPLPUSH", both (one 1) (one 2))
    ∷ (codes "BZMPOP", range 3 (counted 2))
    ∷ (codes "BZPOPMAX", range 1 (len_less 1))
    ∷ (codes "BZPOPMIN", range 1 (len_less 1))
    ∷ (codes "DECR", one 1)
    ∷ (codes "DECRBY", one 1)
    ∷ (codes "EVAL", range 3 (counted 2))
    ∷ (codes "EVALSHA", range 3 (counted 2))
    ∷ (codes "EXPIRE", one 1)
    ∷ (codes "EXPIREAT", one 1)
    ∷ (codes "FCALL", range 3 (counted 2))
    ∷ (codes "GEOADD", one 1)
    ∷ (codes "GETDEL", one 1)
    ∷ (codes "GETEX", one 1)
    ∷ (codes "GETSET", one 1)
    ∷ (codes "HDEL", one 1)
    ∷ (codes "HINCRBY", one 1)
    ∷ (codes "HINCRBYFLOAT", one 1)
    ∷ (codes "HMSET", one 1)
    ∷ (codes "HSET", one 1)
    ∷ (codes "HSETNX", one 1)
    ∷ (codes "INCR", one 1)
    ∷ (codes "INCRBY", one 1)
    ∷ (codes "INCRBYFLOAT", one 1)
    ∷ (codes "LINSERT", one 1)
    ∷ (codes "LMOVE", both (one 1) (one 2))
    ∷ (codes "LMPOP", range 2 (counted 1))
    ∷ (codes "LPOP", one 1)
    ∷ (codes "LPUSH", one 1)
    ∷ (codes "LPUSHX", one 1)
    ∷ (codes "LREM", one 1)
    ∷ (codes "LSET", one 1)
    ∷ (codes "LTRIM", one 1)
    ∷ (codes "MIGRATE", both (one 3) last_keys)
    ∷ (codes "MOVE", one 1)
    ∷ (codes "PERSIST", one 1)
    ∷ (codes "PEXPIRE", one 1)
    ∷ (codes "PEXPIREAT", one 1)
    ∷ (codes "PFADD", one 1)
    ∷ (codes "PFCOUNT", range 1 len)
    ∷ (codes "PFDEBUG", one 2)
    ∷ (codes "PFMERGE", both (one 1) (range 2 len))
    ∷ (codes "RENAME", both (one 1) (one 2))
    ∷ (codes "RENAMENX", both (one 1) (one 2))
    ∷ (codes "RPOP", one 1)
    ∷ (codes "RPOPLPUSH", both (one 1) (one 2))
    ∷ (codes "RPUSH", one 1)
    ∷ (codes "RPUSHX", one 1)
    ∷ (codes "SADD", one 1)
    ∷ (codes "SET", one 1)
    ∷ (codes "SETBIT", one 1)
    ∷ (codes "SETRANGE", one 1)
    ∷ (codes "SINTERSTORE", both (one 1) (range 2 len))
    ∷ (codes "SMOVE", both (one 1) (one 2))
    ∷ (codes "SPOP", one 1)
    ∷ (codes "SREM", one 1)
    ∷ (codes "XACK", one 1)
    ∷ (codes "XADD", one 1)
    ∷ (codes "XAUTOCLAIM", one 1)
    ∷ (codes "XCLAIM", one 1)
    ∷ (codes "XDEL", one 1)
    ∷ (codes "XGROUP CREATE", one 1)
    ∷ (codes "XGROUP CREATECONSUMER", one 1)
    ∷ (codes "XGROUP DELCONSUMER", one 1)
    ∷ (codes "XGROUP DESTROY", one 1)
    ∷ (codes "XGROUP SETID", one 1)
    ∷ (codes "XSETID", one 1)
    ∷ (codes "XTRIM", one 1)
    ∷ (codes "ZADD", one 1)
    ∷ (codes "ZINCRBY", one 1)
    ∷ (codes "ZMPOP", range 2 (counted 1))
    ∷ (codes "ZPOPMAX", one 1)
    ∷ (codes "ZPOPMIN", one 1)
    ∷ (codes "ZREM", one 1)
    ∷ (codes "ZREMRANGEBYLEX", one 1)
    ∷ (codes "ZREMRANGEBYRANK", one 1)
    ∷ (codes "ZREMRANGEBYSCORE", one 1)
    ∷ (codes "BITCOUNT", one 1)
    ∷ (codes "BITFIELD_RO", one 1)
    ∷ (codes "BITOP", both (range 3 len) (one 2))
    ∷ (codes "BITPOS", one 1)
    ∷ (codes "COPY", both (one 1) (one 2))
    ∷ (codes "DUMP", one 1)
    ∷ (codes "EVALSHA_RO", range 3 (counted 2))
    ∷ (codes "EVAL_RO", range 3 (counted 2))
    ∷ (codes "EXISTS", range 1 len)
    ∷ (codes "EXPIRETIME", one 1)
    ∷ (codes "FCALL_RO", range 3 (counted 2))
    ∷ (codes "GEODIST", one 1)
    ∷ (codes "GEOHASH", one 1)
    ∷ (codes "GEOPOS", one 1)
    ∷ (
      codes "GEORADIUS",
      both (one 1) (both (behind (codes "STORE") 6) (behind (codes "STOREDIST") 6)),
    )
    ∷ (
      codes "GEORADIUSBYMEMBER",
      both (one 1) (both (behind (codes "STORE") 5) (behind (codes "STOREDIST") 5)),
    )
    ∷ (codes "GEORADIUSBYMEMBER_RO", one 1)
    ∷ (codes "GEORADIUS_RO", one 1)
    ∷ (codes "GEOSEARCH", one 1)
    ∷ (codes "GEOSEARCHSTORE", both (one 2) (one 1))
    ∷ (codes "GET", one 1)
    ∷ (codes "GETBIT", one 1)
    ∷ all_keys_second
