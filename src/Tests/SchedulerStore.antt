-- ===== src/Tests/SchedulerStore.antt =====
-- The scheduler's store in memory: the table of tasks and Redis side by side, and instances.
use mercado.Scheduler.Implementation.{scheduler_interface}
use mercado.Redis.Laws.{KeyLaws}
use mercado.Scheduler.Store.Laws.{TableLaws}
use mercado.Prelude.{some, [], none, ℕ, String, refl, true}
use mercado.Scheduler.Interface.Laws.{TrackerLaws}
use mercado.Tests.RedisServer.{server_keys, Server, server_pool}
use mercado.Redis.Fred.{Fred}
use mercado.Scheduler.Store.{Store}
use mercado.Prelude.Exec.{Exec, pure}
use mercado.Tests.Database.{Memory, memory_laws, two_tasks, memory_table, memory_clock}
use mercado.Scheduler.Queue.{SchedulerStore}
use mercado.Tests.Batches.{codec}
use mercado.Scheduler.Implementation.Fills.{store-TrackerLaws}

pub record World : Type 0 where
  pub memory : Memory
  pub server : Server

abbrev on_memory : {E A : Type 0} → Exec Memory E A → Exec World E A
on_memory call w = let (r, m) = call w.memory in (r, record w { memory = m })

abbrev on_server : {E A : Type 0} → Exec Server E A → Exec World E A
on_server call w = let (r, s) = call w.server in (r, record w { server = s })

abbrev pub world_store : Store World ℕ String
world_store = record {
  table = record {
    insert_into = λ p. on_memory (memory_table.insert_into p);
    update_where = λ test c. on_memory (memory_table.update_where test c);
    update_returning = λ test c. on_memory (memory_table.update_returning test c);
    update_by_id = λ id c. on_memory (memory_table.update_by_id id c);
    delete_where = λ test. on_memory (memory_table.delete_where test);
    delete_returning = λ test. on_memory (memory_table.delete_returning test);
    find = λ id. on_memory (memory_table.find id);
    get_result = λ test. on_memory (memory_table.get_result test);
    get_results = λ test limit offset. on_memory (memory_table.get_results test limit offset);
  };
  clock = record {
    now = λ w. w.memory.time;
    leb_time = memory_clock.leb_time;
    checked_add = memory_clock.checked_add;
    checked_sub = memory_clock.checked_sub;
  };
  master_pool_get = pure tt;
}

abbrev pub world_pool : Fred World
world_pool = record {
  set = λ key v seconds nx. on_server (server_pool.set key v seconds nx);
  get = λ key. on_server (server_pool.get key);
  del = λ key. on_server (server_pool.del key);
  expire = λ key seconds. on_server (server_pool.expire key seconds);
  xadd = λ stream id fields. on_server (server_pool.xadd stream id fields);
  xdel = λ stream ids. on_server (server_pool.xdel stream ids);
  xtrim = λ stream kind trim id. on_server (server_pool.xtrim stream kind trim id);
  xack = λ stream group ids. on_server (server_pool.xack stream group ids);
  xread_map = λ count stream id. on_server (server_pool.xread_map count stream id);
  xreadgroup_map = λ group consumer count stream id.
      on_server (server_pool.xreadgroup_map group consumer count stream id);
  xgroup_create = λ stream group id. on_server (server_pool.xgroup_create stream group id);
}

abbrev pub scheduler_store : SchedulerStore World ℕ String
scheduler_store = record {
  store = world_store;
  redis_conn = record { pool = world_pool; default_ttl = 300; default_stream_read_count = 1 };
  is_redis_available = λ w. true;
}

unfoldable pub world_laws : TableLaws world_store
unfolding memory_laws
world_laws = record {
  rows = λ w. w.memory.rows;
  connect_keeps = λ w. refl;
  connect_now = λ w. refl;
  update_where_rows = λ test c w. refl;
  update_where_count = λ test c w h. memory_laws.update_where_count test c w.memory h;
  update_by_id_rows = λ id c w. refl;
  update_by_id_empty = λ id c w h. memory_laws.update_by_id_empty id c w.memory h;
  get_results_pass =
      λ test limit offset w h. memory_laws.get_results_pass test limit offset w.memory h;
  get_results_keeps = λ test limit offset w. refl;
}

unfoldable pub world_keys : KeyLaws world_pool
unfolding server_keys
world_keys = record {
  value = λ w. w.server.keys;
  set_if_absent = λ key v seconds w. server_keys.set_if_absent key v seconds w.server;
  expire_keeps = λ key seconds w k h. refl;
  delete = λ key w. server_keys.delete key w.server;
}

pub world_tracker : TrackerLaws (scheduler_interface codec scheduler_store)
unfolding world_laws
world_tracker = store-TrackerLaws codec scheduler_store world_laws (λ stream id fields w. refl)

abbrev pub idle : World
idle = record {
  memory = two_tasks;
  server = record { keys = λ k. none; streams = λ s. []; table = [] };
}

abbrev pub locked : World
locked = record idle {
  server = record { keys = λ k. some "LOCKED"; streams = λ s. []; table = [] };
}
