-- ===== src/ValueStore/Memory.antt =====
-- packages/value-store/src/memory.ts: the store over the entries of a JavaScript `Map`.
use fancy_kit.Common.{ℕ, refl, true, List, Option, none}
use fancy_kit.Common.Maps.{map_get, map_set, map_delete, map_get-set_self, map_get-set_other}
use fancy_kit.Common.Texts.{same, same_iff}
use fancy_kit.ValueStore.Errors.{Result, Failure}
use fancy_kit.ValueStore.Capture.{
  Reply, replied, Serializer, Options, method, ValueStore, DeletableValueStore,
  create_deletable_value_store,
}
use fancy_kit.ValueStore.Store.Effects.{Remembers, found}

abbrev pub Entries : Type 0
Entries = List (List ℕ × List ℕ)

pub memory_get : List ℕ → Entries → Entries × Reply
memory_get key entries = (entries, replied (found (map_get same key entries)))

pub memory_set : List ℕ → List ℕ → Entries → Entries × Option Failure
memory_set key value entries = (map_set same key value entries, none)

pub memory_delete : List ℕ → Entries → Entries × Option Failure
memory_delete key entries = (map_delete same key entries, none)

pub memory_value_store : Options → Result (DeletableValueStore Entries)
memory_value_store options =
    create_deletable_value_store Entries
      (record {
        is_object = true;
        get = method memory_get;
        set = method memory_set;
        remove = method memory_delete;
      })
      options

-- The store that the constructor makes with a serializer, or without one.
abbrev pub memory_store : Option Serializer → ValueStore Entries
memory_store z = record { reader = record { get = memory_get; serializer = z }; set = memory_set }

pub memory_store-Remembers :
    (z : Option Serializer) → Remembers (memory_store z) (λ entries key. map_get same key entries)
unfolding memory_get memory_set
memory_store-Remembers z = record {
  reads = λ k s. refl;
  writes = λ k v s. refl;
  same_key = λ k v s. map_get-set_self same same_iff k v s;
  other_key = λ k j v s n. map_get-set_other same same_iff k j v s n;
}
