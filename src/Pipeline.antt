-- ===== src/Pipeline.antt =====
-- crates/core/src/engine/pipeline.rs: `LogPipeline`, a domain's ring, pre-trigger buffer, seq
-- counter and epoch log. The broadcast channel is the list of the events sent on it, in order.
mod Tests
pub mod Event
pub mod Process
pub mod Stage
pub mod Paced
pub mod Visits
pub mod Rounds
pub mod Visited
pub mod Storage
pub mod Outcome
use logmon_mcp.Common.{ℕ, Option, none, List, [], ◌∷◌, ◌++◌, length, Bool}
use logmon_mcp.Entry.{LogEntry}
use logmon_mcp.Ring.{Store, clear_through, holds}
use logmon_mcp.Ring
use logmon_mcp.Ring.Write.{append, insert_sorted}
use logmon_mcp.Ring.Write
use logmon_mcp.PreBuffer.{Buffer}
use logmon_mcp.PreBuffer
use logmon_mcp.Epoch.{EpochLog, FilterPolicy, new_policy, observe}
use logmon_mcp.Epoch
use logmon_mcp.Throttle.{next}
use Event.{PipelineEvent}

pub record LogPipeline : Type 0 where
  pub store : Store
  pub pre_buffer : Buffer
  pub seq_counter : ℕ
  pub sent : List PipelineEvent
  pub epochs : EpochLog

unfoldable pub new_with_seq_counter : ℕ → ℕ → LogPipeline
new_with_seq_counter store_capacity seq_counter = record {
  store = Ring.new store_capacity;
  pre_buffer = PreBuffer.new 0;
  seq_counter = seq_counter;
  sent = [];
  epochs = Epoch.new seq_counter;
}

unfoldable pub observe_all : EpochLog → List (ℕ × FilterPolicy) → EpochLog
observe_all log [] = log
observe_all log ((seq, policy) ∷ narrowing) = observe_all (observe log seq policy) narrowing

-- A ring that asserts against its records, which panics, is `none`.
unfoldable pub from_records :
    ℕ → ℕ → ℕ → List (ℕ × FilterPolicy) → List LogEntry → ℕ → Option LogPipeline
from_records store_capacity seq_counter epoch_origin narrowing records lost_below =
    let opened = observe (Epoch.new epoch_origin) epoch_origin (new_policy []) in
    elim (Write.from_records store_capacity records lost_below) [
      | Option.none ↦ Option.none
      | Option.some store ↦ Option.some (record {
        store = store;
        pre_buffer = PreBuffer.new 0;
        seq_counter = seq_counter;
        sent = [];
        epochs = observe_all opened narrowing;
      })
    ]

unfoldable pub assign_seq : LogPipeline → LogPipeline × ℕ
assign_seq p = let (counter, seq) = next p.seq_counter in (record p { seq_counter = counter }, seq)

unfoldable pub append_to_store : LogPipeline → LogEntry → LogPipeline
append_to_store p e = record p { store = append p.store e }

unfoldable pub insert_into_store : LogPipeline → List LogEntry → LogPipeline
insert_into_store p batch = record p { store = (insert_sorted p.store batch).0 }

unfoldable pub contains_seq : LogPipeline → ℕ → Bool
contains_seq p seq = holds p.store.entries seq

-- The pipeline, and how many records the clear removed.
unfoldable pub clear_logs : LogPipeline → LogPipeline × ℕ
clear_logs p = (record p { store = clear_through p.store p.seq_counter }, length p.store.entries)

unfoldable pub send_event : LogPipeline → PipelineEvent → LogPipeline
send_event p event = record p { sent = p.sent ++ event ∷ [] }

unfoldable pub pre_buffer_append : LogPipeline → LogEntry → LogPipeline
pre_buffer_append p e = record p { pre_buffer = PreBuffer.append p.pre_buffer e }

unfoldable pub resync_pre_buffer : LogPipeline → ℕ → LogPipeline
resync_pre_buffer p size = record p { pre_buffer = PreBuffer.resize p.pre_buffer size }
