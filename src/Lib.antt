-- ===== src/Lib.antt =====
-- Spectrum KNX records the telegrams of a KNX building bus; its web frontend (frontend/src) shows
-- them live, keeps them in memory and in the browser's database, and loads history from the
-- backend. This library models the frontend's telegram pipeline and proves what its parts promise
-- one another.
--
-- The parts and their files:
--
-- - Prelude and its modules: Boolean tests on the native numbers, lists, a stable insertion sort
--   (the host's Array.prototype.sort is stable, so its result is that of any stable sort), texts
--   as lists of code points.
-- - Telegram: the record of frontend/src/hooks/useWebSocket.ts and its identity (telegramId,
--   toEntry of frontend/src/utils/telegramId.ts; anchorKey of frontend/src/utils/anchorKey.ts).
--   The parser of dates is an argument; a time is a number of epoch milliseconds.
-- - Buffer: TelegramBufferService of frontend/src/services/telegram-buffer-service.ts. The method
--   `add` is `add`, over `push` (the two paths of the insertion) and `evict`; `merge`,
--   `setMaxSize`, `oldestTs`, `clear` and `has` keep their names in this library's spelling.
-- - Cache: TelegramCacheService of frontend/src/services/telegram-cache-service.ts. The library
--   idb-keyval is the record `KvStore`: its operations, and what its documentation promises of
--   them. Cache/Model fills it with an association list. A promise that is rejected is an event
--   of Feed.
-- - Coverage: TelegramCoverageService of frontend/src/services/telegram-coverage-service.ts:
--   `addCovered`, `gaps`, `isCovered`, `trim`, `extendLive`, `closeLive`, `clear`. `covers` of
--   Coverage/Points is the abstract view: the set of milliseconds that are covered;
--   Coverage/Refines has the service as a set of times.
-- - Feed: the hook useTelegramCache of frontend/src/hooks/useTelegramCache.ts, which owns one
--   buffer, one coverage and one cache. Its refs and its React state are the fields of one
--   record; `addLive`, `setConnected`, `setPaused`, `clear`, the flush timer and the resize
--   effect are functions on it. Feed/Events runs them in any order. Feed/Gap is the paging loop
--   `fetchGapProgressive`: each stretch between two waits is a function, so that other events may
--   come between; `fill_gap` runs them in one go, on fuel. The cursor falls with every round, so
--   fuel above the first cursor is enough.
-- - Feed/Loads: `fillGapsBudgeted`, `fillGaps`, `loadRange`, `runLoad` and the restore at the
--   start, of the same file. Each gap has fuel above its cursor.
-- - Feed/Failing: the same loops and `runLoad` with requests that fail: the error leaves both
--   loops, and `runLoad` shows it. `fails` says which requests do. What the loads rely on of the
--   backend is the record `Answers` of Feed/Gap/Accounted; Feed/Gap/Backend is a backend that has
--   it, for any rows.
-- - Filters: frontend/src/types/filters.ts, from `filterKey` to `countFilterOptions`.
-- - DeltaContext: expandWithDeltaContext of frontend/src/utils/deltaContextExpansion.ts, for rows
--   of any type.
-- - Charts: Charts/Data is useChartData of frontend/src/hooks/useChartData.ts, which takes the
--   decoder of raw payloads and the host's functions as arguments; Charts/Lock is
--   splitLockedBuckets of frontend/src/utils/chartLock.ts.
-- - Sorting: frontend/src/utils/sortConfig.ts, the clicks and the sort by several levels;
--   Sorting/Columns says column by column what the order of levels is, to compare it with.
-- - Columns: frontend/src/utils/columnOrder.ts, normalizing a stored order and moving a column.
-- - Urls: Urls/Workspace is the workspace in the address bar,
--   frontend/src/utils/workspaceState.ts, and Urls/View the shared view of
--   frontend/src/utils/viewUrl.ts. A query is the list of its parameters.
-- - Colors: nextTargetColor and setTargetColor of frontend/src/utils/targetColors.ts, and
--   seriesColor of frontend/src/utils/seriesColors.ts.
-- - Selections: the stores of frontend/src/utils/buildingSelection.ts, buildingExpansion.ts,
--   recentGas.ts and legendVisibility.ts beside it, and adjacentMark.ts.
-- - QuickFilter: compileQuickFilters and activeQuickFilter of frontend/src/utils/quickFilter.ts,
--   and in QuickFilter/Patterns those of frontend/src/utils/addressPattern.ts; the regular
--   expressions are arguments.
-- - Socket: the hook useWebSocket of frontend/src/hooks/useWebSocket.ts: `connect`, `onopen`,
--   `onmessage`, `onclose`, the timer, `send`, and the effect with its cleanup, as functions on
--   one record. What the browser and the page may do is a step relation; Socket/Reconnect,
--   Socket/Steady and Socket/Stale are about its runs.
-- - Table: frontend/src/components/TelegramTable.tsx without its rendering. Table/Flags has the
--   flags of the Time-Delta-Context, Table/Marks the marked rows and the jumps, Table/DeltaSort
--   the sort by time differences, Table/Follow what an update of the rows does at the live edge,
--   Table/Metrics the quick info bar.
-- - Peaks: peakRate of frontend/src/utils/peakRate.ts, with its two pointers; the inner loop has
--   as much fuel as the lower pointer is behind the upper one.
-- - Csv: telegramsToCsv of frontend/src/utils/telegramCsv.ts; Csv/Reader is a reader of RFC 4180
--   to compare it with.
-- - Shell: the state of frontend/src/App.tsx: its panels, `onPopState` and the write of the
--   address bar, the handlers that the panels call. Shell/Rate is `handleTelegram` up to the
--   feed, with the bus rate, and Shell/Live the rows of the live list with
--   `handleChartTimeClick`: it composes Sorting, Filters, QuickFilter and DeltaContext the way
--   `deltaExpandedLive` does.
-- - LastSeen: the panel of frontend/src/components/LastSeenOverlay.tsx, live and frozen, with its
--   requests under way, and compareKnxAddress of frontend/src/utils/knxAddress.ts;
--   LastSeen/Bounds has what may happen to it as a step relation.
-- - Writes, with Writes/Sending: the panel of frontend/src/components/WriteToBusPanel.tsx, and
--   formatDpt and parseDptMain of frontend/src/utils/knxSend.ts: its rows, `write`, `read`,
--   `startScheduled` and the polling of `refreshJob`. What the browser's intervals are is part of
--   its state; Writes/Kept/Steps has what may happen as a step relation.
-- - Statistics: the tables and the tree of frontend/src/components/StatisticsOverlay.tsx:
--   `handleSort`, the sorted and visible entries and `buildHierarchy`. Its maps are association
--   lists in the order of insertion; a node that holds a list of nodes is a pair of data types.
-- - Building: the tree of frontend/src/components/BuildingOverlay.tsx: the search (`spaceMatches`
--   and what it calls), `spaceHasSelected` and `collectMaxGaNameLength`; Building/Rows has the
--   rows that `SpaceRow` and the overlay show, over what Selections keeps of opened nodes and
--   ticked devices.
-- - RawDpt: decodeRawDpt of frontend/src/utils/rawDpt.ts; RawDpt/Encode writes the payloads that
--   it reads.
--
-- Not modelled: the rendering of the React components, pixels and scrolling, localStorage, and
-- the backend, whose answers are arguments of the loads. Values and the points of charts are
-- integers here, and the status of the building's data, with which the backend sends no tree, is
-- left.
pub mod Buffer
pub mod Building
pub mod Cache
pub mod Charts
pub mod Colors
pub mod Columns
pub mod Coverage
pub mod Csv
pub mod DeltaContext
pub mod Feed
pub mod Filters
pub mod LastSeen
pub mod Peaks
pub mod Prelude
pub mod QuickFilter
pub mod RawDpt
pub mod Selections
pub mod Shell
pub mod Socket
pub mod Sorting
pub mod Statistics
pub mod Table
pub mod Telegram
pub mod Urls
pub mod Writes
