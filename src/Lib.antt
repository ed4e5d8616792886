-- ===== src/Lib.antt =====
-- Plugin Lab is a host for audio plugins that measures them: it plays a test signal through a plugin,
-- records what comes out, and analyses it. Plugins that crash are run in a child process, and an
-- outside controller drives the host through a named pipe. These files model the parts of it that
-- carry state, and prove what makes them correct.
--
-- The parts, and how they interact:
-- * Sweep is source/capture/SweepRunner.cpp: one measurement pass, block by block. `run` is run(), its
--   two loops are `signal_round` and `tail_round` under `loop`. The generator, the plugin (whose calls
--   may throw) and the audio blocks are the record `Rig`. Each loop has as much fuel as it has samples
--   left and one more, since a round moves on by a sample at least.
-- * Wav is the capture mirror file: Wav/Writer the header and the samples that
--   source/capture/AudioBuffer.cpp writes, Wav/Reader the function readDryWet of
--   source/analysis/WavCaptureReader.cpp, where `none` is undefined behaviour. The walk over the
--   chunks has as much fuel as the file has bytes and one more. What JUCE's `read` gives for an `int`
--   size is a parameter, and the code reads no file from 2 GiB on. Floating-point samples are abstract.
-- * Capture is source/capture/AudioBuffer.cpp: the recorded samples in memory and the mirror file that
--   `flush` brings up to date. The disk is the record `Disk`, whose operations may fail; Capture/Stream
--   says what they do when they succeed. Capture/Mirror is about the file, Capture/Memory about what
--   is in memory and what in the file, and Capture/Session about a recording that Wav reads back.
-- * Plugins is source/host/PluginManager.cpp: the list of known plugins, the cache, the blacklist, the
--   scan with its watchdog, and loading. JUCE's strings, its scanner and the file system are the
--   record `Juce`, and what is relied on in them is Plugins/Laws. A scan is a list of entries.
-- * Child is source/host/ChildProcessCoordinator.cpp: Child/Lines cuts the child's output into lines
--   and keeps the last ones; Child/Coordinator starts, watches, restarts and stops the process. What
--   Windows answers is an argument of each operation, and a history is a list of `Action`s.
-- * Measure is source/host/ChildMeasureOrchestrator.cpp, which drives one measurement through the
--   child. The coordinator is the interface `Setting`: calls that change a world, in which the other
--   threads run too. waitForLine runs on fuel, one round for each poll.
-- * Pipe is source/ipc/PipeServer.cpp: the pipe thread, the worker thread and the writers as steps,
--   and a history is a list of them. The command handler and JUCE's JSON are the record `Service`.
-- * Timeline is source/capture/ParameterTimeline.cpp: recording and playback of automation, over the
--   plugin interface of Host, which Session and Scan use too.
-- * Session is source/capture/MeasurementSession.cpp: the choice of the test signal, in
--   Session/Setup with all that is set on it, and a run that plays a timeline and restores the
--   parameters after it. The runner's blocks are a list.
-- * Scan is source/scan/ScanEngine.cpp: a measurement for each value of a parameter, with the guard
--   that restores the plugin. The session and the analysis are the record `Bench`; both may throw.
-- * Commands is source/ipc/CommandParser.cpp: handleCommand and each command as an action on the
--   parser's state (Parser) with an early return (Action): Fields checks the fields, Measure has measure
--   and scan, Dataset has dataset, exportWav and exportData, Control has loadPlugin, setParam and
--   getParams, Playback the timeline commands, and Router the dispatch. JUCE's JSON is the record
--   `Json`; the session's runs, the engines, the analysis, the child's orchestrator and the files are
--   the record `Desk`. Commands run one after the other: the hand-over to the message thread is left out.
-- * HostChild is source/child/PluginHostChild.cpp: the child's main and handleCommand, as actions on its
--   plugin and its output. Plugins, the scanner and the runner are the record `Program`. The loop that
--   waits for a plugin runs on fuel, one round for each time that it looks.
-- * Signal.Burst is generate of source/signal/ToneBurst.cpp, over the samples of the tone.
-- * Prelude holds the notation, lists, integers and sorting that the parts share.
--
-- Machine integers wrap where the code can reach their bounds: the millisecond counter (32 bits), the
-- connection generation (64 bits) and the fields of the file. Sample counts and times of `int64_t`
-- are far from theirs, and are ℕ and ℤ.
--
-- Not modelled: the user interface, the other signal generators and the analysis (floating point), the
-- text of the responses but for their escaping, and what the measurement session keeps for the export.
pub mod Prelude
pub mod Host
pub mod Timeline
pub mod Child
pub mod Wav
pub mod Capture
pub mod Sweep
pub mod Pipe
pub mod Measure
pub mod Plugins
pub mod Scan
pub mod Session
pub mod Commands
pub mod HostChild
pub mod Signal
