-- ===== src/Worker/Reporting.antt =====
-- worker.go: the goroutine of `startStatsProcess`, one case of its `select` at a time, with `sendStats`.
use launce.Base.{ℕ, Bool, false, Option, none, some, List, [], ◌∷◌, ◌++◌, String, if◌then◌else◌}
use launce.Base.Int64.{add64}
use launce.Base.Maps.{GoMap}
use launce.Stats.Counters.{Time, Entry}
use launce.Stats.Failures.{Errors}
use launce.Stats.{Entries, Stats, clear, flush, merge}

-- What `sendStats` sends, before its conversion: the results of `Flush`, and the users.
pub record Payload : Type 0 where
  pub entries : Entries
  pub total : Entry
  pub errors : Errors
  pub user_classes_count : GoMap String ℕ
  pub user_count : ℕ

-- The fields of the worker that the goroutine uses, all that it has sent, and all whose message failed, the
-- latest last.
pub record Reporter : Type 0 where
  pub stats : Stats
  pub reset_stats_ch : Bool
  pub sent : List Payload
  pub lost : List Payload

-- The loop of `sendStats` over the users.
unfoldable pub count_users : GoMap String ℕ → ℕ → ℕ
count_users [] n = n
count_users ((name, count) ∷ m) n = count_users m (add64 n count)

-- `case st := <-ch`.
unfoldable pub merge_stats : Reporter → Stats → Reporter
merge_stats w st = record w { stats = merge w.stats st }

-- `case <-w.resetStatsCh`, if there is a request.
unfoldable pub reset_stats : Reporter → Time → Option Reporter
reset_stats w now =
    if w.reset_stats_ch then some (record w { stats = clear now; reset_stats_ch = false }) else none

-- `sendStats`, where `Users` returns `users`, and `SendMessage` an error or not. Its callers drop the error; what
-- was flushed is gone then.
unfoldable pub send_stats : Reporter → Time → GoMap String ℕ → Bool → Reporter
unfolding count_users
send_stats w now users is_sent =
    let ((entries, total, errors), stats) = flush w.stats now in
    let payload : Payload = record {
      entries = entries;
      total = total;
      errors = errors;
      user_classes_count = users;
      user_count = count_users users 0;
    } in
    if is_sent
    then record w { stats = stats; sent = w.sent ++ payload ∷ [] }
    else record w { stats = stats; lost = w.lost ++ payload ∷ [] }
