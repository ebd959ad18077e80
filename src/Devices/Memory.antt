-- ===== src/Devices/Memory.antt =====
-- An instance of the tables and of redis.
use snapemu_workflow.Base.{refl}
use snapemu_workflow.Groups.Memory as GroupsMemory
use snapemu_workflow.Redis.Memory as RedisMemory
use snapemu_workflow.Tables.Memory as TablesMemory
use snapemu_workflow.Devices.{Stores, IsStores}

abbrev pub stores : Stores
stores = record {
  devices = TablesMemory.memory (λ r. r.id);
  auths = TablesMemory.memory (λ r. r.id);
  nodes = TablesMemory.memory (λ r. r.id);
  gates = TablesMemory.memory (λ r. r.id);
  snaps = TablesMemory.memory (λ r. r.id);
  mqtts = TablesMemory.memory (λ r. r.id);
  samples = TablesMemory.memory (λ r. r.id);
  tokens = TablesMemory.memory (λ r. r.id);
  functions = TablesMemory.memory (λ r. r.id);
  groups = GroupsMemory.memory;
  caches = GroupsMemory.cache;
  redis = RedisMemory.memory;
}

pub stores-IsStores : IsStores stores
stores-IsStores = record {
  devices = TablesMemory.memory-IsTable (λ r. r.id);
  device_key = λ r. refl;
  auths = TablesMemory.memory-IsTable (λ r. r.id);
  nodes = TablesMemory.memory-IsTable (λ r. r.id);
  snaps = TablesMemory.memory-IsTable (λ r. r.id);
  samples = TablesMemory.memory-IsTable (λ r. r.id);
  groups = GroupsMemory.memory-IsTables;
  redis = RedisMemory.memory-IsRedis;
}
