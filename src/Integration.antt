-- ===== src/Integration.antt =====
-- The authorization of integrations, backend/bothesis/integrations/.
pub mod OauthState
