-- ===== src/Control.antt =====
-- The replies of src/control_server.cpp to the requests for statistics and for the contexts. Their
-- messages, of src/lscomm.proto, have fields of 64 bits, as has `std::size_t`, and of 32 bits.
pub mod Deltas
use lserver.Prelude.{ℕ, ◌^◌, ◌%◌, Bool, List, [], ◌∷◌, map}
use lserver.LsContext.{ContextInfo}
use lserver.Stats.{LsStats}
use lserver.Manager
use lserver.Manager.{ServerManager}

pub record StatsRec : Type 0 where
  pub time : ℕ
  pub stats_accepted_cnt : ℕ
  pub num_items_total : ℕ
  pub num_items_in_flight : ℕ
  pub stats_transactions_cnt_delta : ℕ
  pub stats_bytes_received_delta : ℕ
  pub stats_bytes_sent_delta : ℕ

unfoldable pub add_stats_rec : LsStats → StatsRec
add_stats_rec rec = record {
  time = rec.time;
  stats_accepted_cnt = rec.accepted_cnt;
  num_items_total = rec.num_items_total;
  num_items_in_flight = rec.num_items_in_flight;
  stats_transactions_cnt_delta = rec.session_stats.transactions_cnt_delta;
  stats_bytes_received_delta = rec.session_stats.bytes_received_delta;
  stats_bytes_sent_delta = rec.session_stats.bytes_sent_delta;
}

abbrev pub int32 : ℕ → ℕ
int32 n = n % 2 ^ 32

unfoldable pub add_contexts_info : ContextInfo → ContextInfo
add_contexts_info info = record {
  context_index = int32 info.context_index;
  threads_cnt = int32 info.threads_cnt;
  active_sessions_cnt = int32 info.active_sessions_cnt;
  strand_pool_size = int32 info.strand_pool_size;
  strand_pool_flight = int32 info.strand_pool_flight;
  active = info.active;
}

module _ {ℓ} {S : Type ℓ} where
  unfoldable pub get_stats : ServerManager S → (clock : ℕ → ℕ) → ServerManager S × List StatsRec
  unfolding add_stats_rec Manager.get_stats
  get_stats m clock = let (m', recs) = Manager.get_stats m clock in (m', map add_stats_rec recs)

  unfoldable pub get_contexts_info : ServerManager S → List (List ContextInfo)
  unfolding add_contexts_info Manager.get_servers_info
  get_contexts_info m = map (map add_contexts_info) (Manager.get_servers_info m)
