-- ===== src/Storage/Cache/Tests.antt =====
-- Runs of the cache manager at concrete inputs, and its theorem there. The store is a map.
use syara_ai.Base.{
  ◌≡◌, refl, ap, true, Option, none, some, [], ◌∷◌, Text, codes, text_equality, arith, Dict, lookup,
  insert,
}
use syara_ai.Base.{lookup-insert_self}
use syara_ai.Storage.Cache.{
  Reply, refused, replied, RedisClient, CacheManager, broken, hit, default_cache_config,
  new_cache_manager, get_embedding, set_embedding, get_retrieval, invalidate_by_document,
}
use syara_ai.Storage.Cache.RoundTrip.{one_hit, get_embedding-set_embedding}

abbrev answer : Option Text → Reply Text
answer none = refused (codes "redis: nil")
answer (some value) = replied value

abbrev client : RedisClient (Dict Text Text)
client = record {
  get = λ key w. (answer (lookup key w), w);
  set = λ key value w. (none, insert key value w);
  del = λ keys w. (some (codes "read only"), w);
  keys = λ pattern w. (replied (codes "rag:retrieve:k" ∷ []), w);
  ping = λ w. (none, w);
}

-- Stands for the hash of a query.
abbrev hash : Text → Text
hash query = query

abbrev manager : CacheManager
manager = record {
  config = default_cache_config;
  metrics = record {
    embedding_hits = 0;
    embedding_misses = 0;
    retrieval_hits = 0;
    retrieval_misses = 0;
    document_hits = 0;
    document_misses = 0;
    errors = 0;
  };
  healthy = true;
}

get_embedding-set_embedding_example :
    let (error, cm, w) = set_embedding client hash (codes "riba") (1065353216 ∷ []) manager [] in
    let (found, cm', w') = get_embedding client hash (codes "riba") cm w in
    (error ≡ none) × (found ≡ hit (1065353216 ∷ [])) × (cm' ≡ one_hit manager)
get_embedding-set_embedding_example =
    get_embedding-set_embedding client hash (codes "riba") (1065353216 ∷ []) manager []
      (omega arith, tt) refl (λ key value w e. ap answer (lookup-insert_self key value w)) refl

started : new_cache_manager client default_cache_config [] ≡ (manager, [])
unfolding new_cache_manager
started = refl

-- A stored value of a wrong length is an error and no miss.
wrong_length :
    (get_embedding client hash (codes "q") manager ((codes "rag:embed:q", codes "abc") ∷ [])).0
    ≡ broken (codes "invalid embedding data length: 3")
unfolding get_embedding lookup
wrong_length = refl

abbrev stored : Dict Text Text
stored = (codes "rag:retrieve:k", codes "old") ∷ []

-- A deletion that Redis refuses is reported as done, and the retrieval is still there.
stale_after_invalidation :
    let (error, w') = invalidate_by_document client (codes "d") manager stored in
    (error ≡ none)
    × ((get_retrieval client (λ s. replied s) (λ s. replied s) (codes "k") manager w').0
        ≡ hit (codes "old"))
unfolding invalidate_by_document get_retrieval lookup
stale_after_invalidation = (refl, refl)
