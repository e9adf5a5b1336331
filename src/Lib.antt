-- ===== src/Lib.antt =====
-- Working_TEMPO schedules checkpoint and KV-cache I/O around the NCCL collectives of a training or
-- serving job (tempo/). This development models parts of the Python package.
--
-- Base: the shared lists, dicts, order and fractions. A Python dict is an association list in
--   insertion order; a float of the source is the exact fraction that it stands for, without
--   rounding; a time is a number of ticks and an argument of the operation that reads the clock.
-- Cache: tempo/p2p_cache.py. Cache/Tier.antt is `_LocalTierStore`, Cache/Ring.antt is
--   `_ConsistentHashRing` and Cache/Store.antt is `P2PCacheStore`, which asks the ring for the owners
--   of a key and then the local store or the peers. MD5, the files and the peers are parameters. The
--   fuel of the eviction loop is the number of entries in DRAM, of which each round takes one; that
--   of the bisection is the number of points, and its interval shrinks in each round.
-- Phase: tempo/phase_monitor.py, the phases of training and the gate that pauses I/O during NCCL.
-- Topology: tempo/topology_router.py, where KV data is placed among the Dragonfly groups.
-- Qos: tempo/qos_mapper.py (Qos.antt) and tempo/libfabric_qos.py (Qos/Fabric.antt), from a gain to the
--   class of the socket and of the NIC's endpoint; setsockopt and fi_setopt are parameters.
-- Gpu: tempo/gpu_driven.py, the registered transfers, the doorbell token and the completion queue. A
--   wait reads the polls that its deadline allows, as a list.
-- Interleave: tempo/interleaving_engine.py, the prediction of the phases and the I/O window of each
--   compute phase; that the timer runs out and that its callback gets the lock are two events of a step
--   relation.
-- Gain: tempo/service_gain.py, the gain of a job (Gain.antt), the token bucket (Gain/Bucket.antt),
--   whose loop runs over the readings of the clock, and the PCIe predictor (Gain/Pcie.antt).
-- Nexus: tempo/nexus_coordinator.py, the staggered windows of the ranks and the gates of the layers. Two
--   coordinators of different ranks are two records over the same loads.
-- Checkpoint: tempo/checkpoint_manager.py, the saves and the queue (Checkpoint.antt), the chunk loop
--   and its pacing (Checkpoint/Chunks.antt), the flush and the worker (Checkpoint/Flush.antt). What
--   torch.save writes, or leaves as it raises, is a list of bytes; the worker takes a job and ends it in
--   two steps, with other calls between them; what the loop finds in a round, of the monitor, the clock
--   and the disk, is the argument of the round. The fuel of the loop is the size of the file and one
--   more, since each round but the last reads a byte.
-- Network: tempo/network_monitor.py, the NICs and the gate (Network.antt), the idle rails and the
--   forecast (Network/Rails.antt), and the hardware counters (Network/Cassini.antt). What the counters
--   read is an argument of each poll.
-- Scheduler: tempo/scheduler.py, TEMPOScheduler (Scheduler.antt), V2 with its hooks, look-ahead and
--   gain (Scheduler/Staged.antt) and V3 with its placement (Scheduler/Placed.antt), over the models of
--   the components: one record, in which a version has the components that it makes. A shutdown that
--   waits is given the attempts of the worker meanwhile.
-- Nvlink: tempo/nvlink_router.py, the egress of a flush among the NICs of a node.
-- Sparse: tempo/sparse_transfer.py, the selection of rows by their weights, which are an argument, and
--   their reconstruction.
-- Nano: tempo/nano_overlap.py, the overlap of the transfers with the layers: the hooks and the worker
--   (Nano.antt), the metrics (Nano/Metrics.antt), their steps and the pinned buffers.
-- Absorber: tempo/lmcache_connector.py, the soft absorber in front of a backing store, which is an
--   argument.
--
-- Not modelled: of the scheduler the versions V4 to V6; of the nano-overlap controller the CUDA
-- streams; of the LMCache connector the native library; the loader of traces, which downloads and
-- parses files; plots and benchmarks (scripts/, eval/), CUDA code and the hooks into other packages.
-- Locks are not modelled: each operation runs under its lock as one step. A flush reads its source at
-- one time: a save of the same step meanwhile takes place before or behind its copy.
pub mod Base
pub mod Cache
pub mod Phase
pub mod Topology
pub mod Qos
pub mod Gpu
pub mod Interleave
pub mod Gain
pub mod Nexus
pub mod Checkpoint
pub mod Network
pub mod Scheduler
pub mod Nvlink
pub mod Sparse
pub mod Nano
pub mod Absorber
