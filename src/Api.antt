-- ===== src/Api.antt =====
-- api/v1alpha1: the custom resources, and the webhook of DirectoryService.
pub mod Types
