-- ===== src/App/Live/Reconnect.antt =====
-- The page of web/src/App.jsx comes back to a connected live tail.
use hackathon.App.{App}
