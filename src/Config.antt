-- ===== src/Config.antt =====
-- `src/config.rs`: the configuration and its default, in the build with the features `threading` and
-- `config_linux`. What `config_linux` reads from the system and `available_parallelism` are arguments.
use qblaze.Base.{ℕ, ◌^◌, Bool, false, Option, none, some, if◌then◌else◌}
use qblaze.Control.{Qubit}

pub record Config : Type 0 where
  pub max_qubit : Qubit
  pub threads : ℕ
  pub chunk_size : ℕ
  pub multithreading_threshold : ℕ
  pub work_item_min_size : ℕ
  pub work_item_max_size : ℕ
  pub perf_enabled : Bool

abbrev pub with_threads : Config → ℕ → Config
with_threads c n = record {
  max_qubit = c.max_qubit;
  threads = n;
  chunk_size = c.chunk_size;
  multithreading_threshold = c.multithreading_threshold;
  work_item_min_size = c.work_item_min_size;
  work_item_max_size = c.work_item_max_size;
  perf_enabled = c.perf_enabled;
}

-- `config`: the Linux configuration, which tells whether it has succeeded, else the number of threads
-- that the standard library reports.
unfoldable pub configure : (Config → Bool × Config) → Option ℕ → Config → Config
configure linux parallelism c =
    let (done, c') = linux c in
    if done then c' else elim parallelism [ none ↦ c' | some n ↦ with_threads c' n ]

-- `Config::default`.
unfoldable pub default_config : (Config → Bool × Config) → Option ℕ → Config
unfolding configure
default_config linux parallelism = configure linux parallelism (record {
  max_qubit = 0;
  threads = 1;
  chunk_size = 2 ^ 18;
  multithreading_threshold = 2 ^ 16;
  work_item_min_size = 2 ^ 10;
  work_item_max_size = 2 ^ 24;
  perf_enabled = false;
})
