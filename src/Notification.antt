-- ===== src/Notification.antt =====
-- pkg/notification/notification_builder.go: a Notification is put together by options and created.
pub mod Builder
pub mod CreateLaws
pub mod Tests
