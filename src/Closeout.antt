-- ===== src/Closeout.antt =====
-- The closeout associations of src/ei/closeout_store.py and src/ei/closeout_association.py.
mod Record
mod Schema
mod Files
mod Store
mod Equal
mod Finish
mod Team
mod Stages
mod Shape
mod Reading
mod Follows
mod Guarded
mod Writes
mod Reserve
mod Handled
mod History
mod Trace
mod Order
mod Renewed
mod View
mod Rotation
mod Tests
