-- ===== src/Dashboard.antt =====
-- The dashboard (src/App.tsx, src/components): the state that its components keep, what they do with
-- the answers of the server, the requests that they send, and what they show.
pub mod Home
pub mod ConfigForm
pub mod LogFilter
pub mod Studio
pub mod Sender
pub mod Explorer
pub mod Cards
pub mod View
pub mod Header
pub mod Stages
pub mod Architecture
pub mod Boxes
pub mod Sliders
pub mod LogViewer
pub mod SenderView
pub mod ExplorerView
pub mod Page
